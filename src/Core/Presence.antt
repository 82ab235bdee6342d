-- ===== src/Core/Presence.antt =====
-- internal/core/presence.go: who is online, in one Server process. Each critical section is a step.
-- The clock's answer is an argument; `time.Since` of a later time counts as nothing.
pub mod People
use buildbee.Base.{
  ℕ, zero, suc, ◌+◌, ◌-◌, ◌*◌, Bool, true, false, not, ◌&&◌, Option, none, some, List, [], ◌∷◌,
  ◌++◌, keep, is_empty, leb, ltb, if◌then◌else◌, ◌==◌, count_if,
}
use buildbee.Text.{Text, bytes, text_eq}
use buildbee.Event.{Event, presence_data}
use buildbee.Models.Records.{Time, Member}

-- agentFresh: 90 seconds
abbrev pub agent_fresh : ℕ
agent_fresh = 90 * 1000000000

-- BotSeen, without the Runs that `Presence` counts
pub record BotSeen : Type 0 where
  pub bot_id : Text
  pub name : Text
  pub project_id : Text
  pub ai : Text
  pub process : Text
  pub host : Text
  pub slots : ℕ
  pub last_seen : Time

-- The function that Online returns, with the `sync.Once` that it closes over.
pub record Release : Type 0 where
  pub person_id : Text
  pub done : Bool

-- presence, with the functions that Online has returned, in order, and the events published
pub record Presence : Type 0 where
  pub people : List (Text × ℕ)
  pub bots : List (Text × BotSeen)
  pub seq : ℕ
  pub releases : List Release
  pub published : List Event

-- newPresence
abbrev pub new_presence : Presence
new_presence = record { people = []; bots = []; seq = 0; releases = []; published = [] }

-- m[key], and delete(m, key)
unfoldable pub get_key : {A : Type 0} → Text → List (Text × A) → Option A
unfolding text_eq
get_key key [] = none
get_key key (p ∷ ps) = if text_eq p.0 key then some p.1 else get_key key ps

unfoldable pub delete_key : {A : Type 0} → Text → List (Text × A) → List (Text × A)
unfolding text_eq
delete_key key [] = []
delete_key key (p ∷ ps) = let rest = delete_key key ps in if text_eq p.0 key then rest else p ∷ rest

-- m[key] = a
abbrev pub set_key : {A : Type 0} → Text → A → List (Text × A) → List (Text × A)
set_key key a ps = (key, a) ∷ delete_key key ps

abbrev pub count_of : Option ℕ → ℕ
count_of none = 0
count_of (some n) = n

-- presenceChanged
unfoldable pub presence_changed : Presence → Presence
presence_changed p = record p {
  seq = suc p.seq;
  published =
      p.published
      ++ record {
        topic = bytes "presence:server";
        cursor = suc p.seq;
        type = bytes "presence";
        body = presence_data;
      }
        ∷ [];
}

abbrev pub tell_if : Bool → Presence → Presence
tell_if b p = if b then presence_changed p else p

-- Online, up to its return
unfoldable pub online : Text → Presence → Presence
unfolding get_key delete_key presence_changed
online person p =
    let n = suc (count_of (get_key person p.people)) in
    tell_if (n == 1) (record p {
      people = set_key person n p.people;
      releases = p.releases ++ record { person_id = person; done = false } ∷ [];
    })

-- The function that Online returns, the first time that it is called
unfoldable pub offline : Text → Presence → Presence
unfolding get_key delete_key presence_changed
offline person p =
    let n = count_of (get_key person p.people) - 1 in
    tell_if (n == 0) (record p {
      people = if n == 0 then delete_key person p.people else set_key person n p.people;
    })

unfoldable pub nth_release : ℕ → List Release → Option Release
nth_release n [] = none
nth_release zero (r ∷ rs) = some r
nth_release (suc n) (r ∷ rs) = nth_release n rs

unfoldable pub mark_done : ℕ → List Release → List Release
mark_done n [] = []
mark_done zero (r ∷ rs) = record r { done = true } ∷ rs
mark_done (suc n) (r ∷ rs) = r ∷ mark_done n rs

abbrev pub once : ℕ → Option Release → Presence → Presence
once n none p = p
once n (some r) p =
    if r.done then p else offline r.person_id (record p { releases = mark_done n p.releases })

-- A call of the n-th function that Online returned: `once.Do`.
unfoldable pub release : ℕ → Presence → Presence
unfolding offline nth_release mark_done
release n p = once n (nth_release n p.releases) p

abbrev fresh_as : Text → Text → Time → Option BotSeen → Bool
fresh_as process ai now none = false
fresh_as process ai now (some b) =
    ltb (now - b.last_seen) agent_fresh && text_eq b.ai ai && text_eq b.process process

-- sawAgent
unfoldable pub saw_agent : Member → Text → Text → Text → ℕ → Time → Presence → Presence
unfolding get_key delete_key presence_changed
saw_agent bot process ai host slots now p =
    tell_if (not (fresh_as process ai now (get_key bot.id p.bots))) (record p {
      bots =
          set_key bot.id
            (record {
              bot_id = bot.id;
              name = bot.display_name;
              project_id = bot.project_id;
              ai = ai;
              process = process;
              host = host;
              slots = slots;
              last_seen = now;
            })
            p.bots;
    })

abbrev pub seen_again : Text → Time → Option BotSeen → Presence → Presence
seen_again id now none p = p
seen_again id now (some b) p = record p { bots = set_key id (record b { last_seen = now }) p.bots }

-- stillThere
unfoldable pub still_there : Text → Time → Presence → Presence
unfolding get_key delete_key
still_there id now p = if is_empty id then p else seen_again id now (get_key id p.bots) p

abbrev pub is_known : {A : Type 0} → Option A → Bool
is_known none = false
is_known (some a) = true

-- SetAgentGone
unfoldable pub set_agent_gone : Text → Presence → Presence
unfolding get_key delete_key presence_changed
set_agent_gone id p =
    tell_if (is_known (get_key id p.bots)) (record p { bots = delete_key id p.bots })

-- The Bots that `Presence` lists, in no order: those whose agents are connected.
unfoldable pub connected : Time → Presence → List (Text × BotSeen)
unfolding keep
connected now p = keep (λ b. ltb (now - b.1.last_seen) agent_fresh) p.bots

-- What `Presence` forgets: Bots not seen for a day.
unfoldable pub forget : Time → Presence → Presence
unfolding keep
forget now p = record p {
  bots = keep (λ b. leb (now - b.1.last_seen) (24 * 3600 * 1000000000)) p.bots;
}

pub data Move : Type 0 where
  opens : Text → Move
  closes : ℕ → Move
  asks_for_work : Member → Text → Text → Text → ℕ → Time → Move
  heartbeats : Text → Time → Move
  leaves : Text → Move
  looks : Time → Move

unfoldable pub move : Move → Presence → Presence
unfolding online release saw_agent still_there set_agent_gone forget
move (opens person) p = online person p
move (closes n) p = release n p
move (asks_for_work bot process ai host slots now) p = saw_agent bot process ai host slots now p
move (heartbeats id now) p = still_there id now p
move (leaves id) p = set_agent_gone id p
move (looks now) p = forget now p

unfoldable pub presence_run : List Move → Presence → Presence
unfolding move
presence_run [] p = p
presence_run (m ∷ ms) p = presence_run ms (move m p)

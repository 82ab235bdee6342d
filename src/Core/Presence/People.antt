-- ===== src/Core/Presence/People.antt =====
-- People are online while a connection of theirs is open.
use buildbee.Base.{
  ℕ, zero, suc, ◌+◌, ◌-◌, ◌≡◌, refl, sym, ap, ◌∙◌, Bool, true, false, not, ◌&&◌, Option, none, some,
  List, [], ◌∷◌, ◌++◌, arith, count_if, is_empty, if◌then◌else◌, ◌==◌, Bool-cases, inl, inr,
}
use buildbee.Event.{Event, presence_data}
use buildbee.Text.{Text, bytes, text_eq, text_eq_iff, text_eq_refl, text_eq-true}
use buildbee.Models.Records.{Time}
use buildbee.Core.Presence.{
  Presence, Release, Move, opens, closes, asks_for_work, heartbeats, leaves, looks, get_key,
  delete_key, set_key, count_of, presence_changed, tell_if, online, offline, nth_release, mark_done,
  once, release, saw_agent, still_there, set_agent_gone, forget, move, presence_run, new_presence,
  seen_again, BotSeen,
}

-- A connection of this Person that is open.
abbrev pub open_for : Text → Release → Bool
open_for person r = text_eq r.person_id person && not r.done

-- How many connections of a Person are open.
abbrev pub open_connections : Text → Presence → ℕ
open_connections person p = count_if (open_for person) p.releases

-- The map's entry for so many connections: none for none.
abbrev pub entry : ℕ → Option ℕ
entry zero = none
entry (suc n) = some (suc n)

abbrev pub Counts : Presence → Type 0
Counts p = (person : Text) → get_key person p.people ≡ entry (open_connections person p)

pub get_key-delete :
    {A : Type 0} (i j : Text) (ps : List (Text × A))
    → get_key j (delete_key i ps) ≡ (if text_eq i j then none else get_key j ps)
unfolding get_key delete_key
get_key-delete i j [] = ground (arith)
get_key-delete i j (p ∷ ps) =
    ground (arith, text_eq_iff p.0 i, text_eq_iff p.0 j, text_eq_iff i j, get_key-delete i j ps)

count-append :
    (person : Text) (rs : List Release) (r : Release)
    → count_if (open_for person) (rs ++ r ∷ [])
      ≡ count_if (open_for person) rs + (if open_for person r then 1 else 0)
unfolding count_if
count-append person [] r = ground (arith)
count-append person (x ∷ rs) r = ground (arith, count-append person rs r)

count-done :
    (person : Text) (n : ℕ) (rs : List Release) (r : Release)
    → nth_release n rs ≡ some r
    → r.done ≡ false
    → count_if (open_for person) rs
      ≡ count_if (open_for person) (mark_done n rs) + (if text_eq r.person_id person then 1 else 0)
unfolding count_if nth_release mark_done
count-done person n [] r h d = ground (arith, h)
count-done person zero (x ∷ rs) r h d =
    let same_person : x.person_id ≡ r.person_id =
      ap (λ (o : Option Release). elim o [ none ↦ [] | some y ↦ y.person_id ]) h in
    let same_done : x.done ≡ r.done =
      ap (λ (o : Option Release). elim o [ none ↦ false | some y ↦ y.done ]) h in
    ground (arith, d, same_person, same_done)
count-done person (suc n) (x ∷ rs) r h d = ground (arith, count-done person n rs r h d)

count_of-entry : (n : ℕ) → count_of (entry n) ≡ n
count_of-entry zero = refl
count_of-entry (suc n) = refl

entry_of : (n : ℕ) → (n == 0) ≡ false → some n ≡ entry n
entry_of zero h = ground (arith, h)
entry_of (suc n) h = refl

tell_if-Counts : (b : Bool) (p : Presence) → Counts p → Counts (tell_if b p)
unfolding presence_changed
tell_if-Counts true p h = h
tell_if-Counts false p h = h

online-Counts : (person : Text) (p : Presence) → Counts p → Counts (online person p)
unfolding online get_key
online-Counts person p h =
    let n = suc (count_of (get_key person p.people)) in
    tell_if-Counts (n == 1) _ (λ q.
      let more = count-append q p.releases (record { person_id = person; done = false }) in
      let known : count_of (get_key person p.people) ≡ open_connections person p =
        ap count_of (h person) ∙ count_of-entry _ in
      elim (Bool-cases (text_eq person q)) [
        | inl y ↦
            let total : count_if (open_for q)
                  (p.releases ++ record { person_id = person; done = false } ∷ [])
                ≡ n =
              ground (arith, more, y, known, text_eq-true person q y) in
            rw y (sym (ap entry total))
        | inr e ↦
            let total : count_if (open_for q)
                  (p.releases ++ record { person_id = person; done = false } ∷ [])
                ≡ open_connections q p =
              ground (arith, more, e) in
            rw e (get_key-delete person q p.people ∙ rw e (h q) ∙ sym (ap entry total))
      ])

-- Before the count of a connection that closes is taken back, the map is one ahead for its Person.
abbrev Ahead : Text → Presence → Type 0
Ahead person p =
    (q : Text)
    → get_key q p.people ≡ entry (open_connections q p + (if text_eq person q then 1 else 0))

-- The count that is left.
left_open :
    (person : Text) (p : Presence)
    → Ahead person p
    → count_of (get_key person p.people) - 1 ≡ open_connections person p
left_open person p h =
    let same = ap count_of (h person) ∙ count_of-entry _ in
    ground (arith, same, text_eq_refl person)

offline-Counts : (person : Text) (p : Presence) → Ahead person p → Counts (offline person p)
unfolding offline get_key
offline-Counts person p h =
    let n = count_of (get_key person p.people) - 1 in
    let n_is = left_open person p h in
    tell_if-Counts (n == 0) _ (λ q.
      let gone = get_key-delete person q p.people in
      elim (Bool-cases (text_eq person q)) [
        | inl y ↦
            let own : n ≡ open_connections q p =
              n_is ∙ ap (λ t. open_connections t p) (text_eq-true person q y) in
            elim (Bool-cases (n == 0)) [
              | inl z ↦
                  let none_open : open_connections q p ≡ 0 = ground (arith, own, z) in
                  rw z (gone ∙ rw y (sym (ap entry none_open)))
              | inr z ↦ rw z (rw y (entry_of n z ∙ ap entry own))
            ]
        | inr e ↦
            let same : open_connections q p + (if text_eq person q then 1 else 0)
                ≡ open_connections q p =
              ground (arith, e) in
            let other = h q ∙ ap entry same in
            elim (Bool-cases (n == 0)) [
              | inl z ↦ rw z (gone ∙ rw e other)
              | inr z ↦ rw z (rw e (gone ∙ rw e other))
            ]
      ])

-- The Person's connection is marked as closed: the map is one ahead.
marked-Ahead :
    (n : ℕ) (r : Release) (p : Presence)
    → Counts p
    → nth_release n p.releases ≡ some r
    → r.done ≡ false
    → Ahead r.person_id (record p { releases = mark_done n p.releases })
marked-Ahead n r p h e d q = h q ∙ ap entry (count-done q n p.releases r e d)

once-Counts :
    (n : ℕ) (o : Option Release) (p : Presence)
    → nth_release n p.releases ≡ o
    → Counts p
    → Counts (once n o p)
once-Counts n none p e h = h
once-Counts n (some r) p e h = elim (Bool-cases r.done) [
  | inl y ↦ rw y h
  | inr d ↦ rw d (offline-Counts r.person_id _ (marked-Ahead n r p h e d))
]

seen_again-Counts :
    (id : Text) (now : Time) (o : Option BotSeen) (p : Presence)
    → Counts p
    → Counts (seen_again id now o p)
seen_again-Counts id now none p h = h
seen_again-Counts id now (some b) p h = h

move-Counts : (m : Move) (p : Presence) → Counts p → Counts (move m p)
unfolding move release saw_agent still_there set_agent_gone forget
move-Counts (opens person) p h = online-Counts person p h
move-Counts (closes n) p h = once-Counts n (nth_release n p.releases) p refl h
move-Counts (asks_for_work bot process ai host slots now) p h = tell_if-Counts _ _ h
move-Counts (heartbeats id now) p h = elim (Bool-cases (is_empty id)) [
  | inl y ↦ rw y h
  | inr e ↦ rw e (seen_again-Counts id now (get_key id p.bots) p h)
]
move-Counts (leaves id) p h = tell_if-Counts _ _ h
move-Counts (looks now) p h = h

run-Counts : (ms : List Move) (p : Presence) → Counts p → Counts (presence_run ms p)
unfolding presence_run
run-Counts [] p h = h
run-Counts (m ∷ ms) p h = run-Counts ms (move m p) (move-Counts m p h)

new_presence-Counts : Counts new_presence
unfolding get_key count_if
new_presence-Counts person = refl

-- Whatever connections open and close and whatever agents do, the map of people holds exactly the
-- people with an open connection, each with the number of them; a connection that is released
-- twice counts once.
pub people_refine :
    (ms : List Move) (person : Text)
    → get_key person (presence_run ms new_presence).people
      ≡ entry (open_connections person (presence_run ms new_presence))
people_refine ms person = run-Counts ms new_presence new_presence-Counts person

-- The event that tells of a change of presence.
abbrev pub change : ℕ → Event
change n = record {
  topic = bytes "presence:server";
  cursor = n;
  type = bytes "presence";
  body = presence_data;
}

-- What has been published when there was a change, and when there was none.
abbrev pub published_if : Bool → Presence → List Event
published_if b p = if b then p.published ++ change (suc p.seq) ∷ [] else p.published

told : (b : Bool) (p : Presence) → (tell_if b p).published ≡ published_if b p
unfolding presence_changed
told true p = refl
told false p = refl

-- The Person had no connection open.
abbrev pub opens_first : Text → Presence → Bool
opens_first person p = open_connections person p == 0

-- The connection is open, and its Person's only one.
abbrev pub closes_last : ℕ → Presence → Bool
closes_last n p = elim (nth_release n p.releases) [
  | none ↦ false
  | some r ↦ not r.done && (open_connections r.person_id p == 1)
]

first_one : (k : ℕ) → (suc k == 1) ≡ (k == 0)
first_one k = ground arith

online_told :
    (person : Text) (p : Presence)
    → Counts p
    → (online person p).published ≡ published_if (opens_first person p) p
unfolding online
online_told person p h =
    let n = count_of (get_key person p.people) in
    let known : n ≡ open_connections person p =
      ap count_of (h person) ∙ count_of-entry (open_connections person p) in
    told (suc n == 1) (record p {
      people = set_key person (suc n) p.people;
      releases = p.releases ++ record { person_id = person; done = false } ∷ [];
    })
    ∙ ap (λ k. published_if (suc k == 1) p) known
    ∙ ap (λ b. published_if b p) (first_one (open_connections person p))

offline_told :
    (person : Text) (p : Presence)
    → Ahead person p
    → (offline person p).published ≡ published_if (open_connections person p == 0) p
unfolding offline
offline_told person p h =
    let n = count_of (get_key person p.people) - 1 in
    told (n == 0) (record p {
      people = if n == 0 then delete_key person p.people else set_key person n p.people;
    })
    ∙ ap (λ k. published_if (k == 0) p) (left_open person p h)

one_less : (k n : ℕ) → n ≡ k + 1 → (k == 0) ≡ (n == 1)
one_less k n e = ground (arith, e)

once_told :
    (n : ℕ) (o : Option Release) (p : Presence)
    → Counts p
    → nth_release n p.releases ≡ o
    → (once n o p).published
      ≡ published_if
          (elim o [ none ↦ false | some r ↦ not r.done && (open_connections r.person_id p == 1) ])
          p
once_told n none p h e = refl
once_told n (some r) p h e = elim (Bool-cases r.done) [
  | inl y ↦ rw y refl
  | inr d ↦
      let marked : Presence = record p { releases = mark_done n p.releases } in
      let counted : open_connections r.person_id p ≡ open_connections r.person_id marked + 1 =
        ground (arith, count-done r.person_id n p.releases r e d, text_eq_refl r.person_id) in
      rw d (
        offline_told r.person_id marked (marked-Ahead n r p h e d)
        ∙ ap (λ b. published_if b p)
            (one_less (open_connections r.person_id marked) (open_connections r.person_id p)
              counted))
]

-- Whatever has happened before: a connection that opens publishes a change of presence, under the
-- next number, exactly if its Person had none open; and a release publishes one exactly if it
-- closes a connection that is open and its Person's last. Otherwise nothing is published.
pub people_told :
    (ms : List Move) (person : Text) (n : ℕ)
    → ((online person (presence_run ms new_presence)).published
        ≡ published_if
            (opens_first person (presence_run ms new_presence))
            (presence_run ms new_presence))
      × ((release n (presence_run ms new_presence)).published
          ≡ published_if
              (closes_last n (presence_run ms new_presence))
              (presence_run ms new_presence))
unfolding release
people_told ms person n =
    let p = presence_run ms new_presence in
    let h = run-Counts ms new_presence new_presence-Counts in
    (online_told person p h, once_told n (nth_release n p.releases) p h refl)

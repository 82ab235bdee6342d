-- ===== src/Core/Report/Access.antt =====
-- Who may write to a Run: agents to the Runs that they hold, people only to cancel one.
use buildbee.Base.{
  ℕ, ◌+◌, ◌≡◌, sym, ap, ◌∙◌, subst, Bool, Option, none, some, if◌then◌else◌, refl, Bool-cases, inl,
  inr, true, false, not, ◌&&◌, arith, is_empty,
}
use buildbee.Base.Result.{ok, invalid, ok_inj, and_then_ok, deny_ok}
use buildbee.Text.{Text, text_eq, text_eq-true}
use buildbee.Models.Status.{RunStatus, canceled, same_status-true}
use buildbee.Models.Records.{Run, Time}
use buildbee.Store.{Work, gets}
use buildbee.Store.Grows.{StoredAs}
use buildbee.Store.Keeps.{returned, bind_ok, refuse_ok}
use buildbee.Store.Keeps.Runs.Leases.{extend_lease_lem, renew}
use buildbee.Core.Work.{Actor}
use buildbee.Core.Queue.{beat, heartbeat, lease_ttl}
use buildbee.Core.Presence.{Presence, BotSeen, get_key, seen_again, still_there}
use buildbee.Core.Presence.People.{get_key-delete}
use buildbee.Core.Report.{RunReport, Checked, only_cancels, check_report, apply_report, report_run}
use buildbee.Core.Grows.Reports.{report_run_lem}

beat_lem :
    (a : Actor) (id : Text) (w w' : Work) (r : Run)
    → beat a id w ≡ returned r w'
    → (is_empty a.agent ≡ false)
      × (old : Run) × StoredAs id w.st.runs old
      × (text_eq old.worker a.agent ≡ true)
      × (w' ≡ renew id (w.now + lease_ttl) old w)
unfolding beat gets
beat_lem a id w w' r h =
    let (x, hx, h1) = bind_ok _ _ w w' r h in
    let (named, x_is) = refuse_ok (is_empty a.agent) invalid w x.1 x.0 hx in
    let (t, ht, h2) = bind_ok _ _ x.1 w' r h1 in
    let back : t ≡ (w.now, w) = sym (ok_inj ht) ∙ ap (λ (v : Work). (v.now, v)) x_is in
    let (old, stored, own, w'_is) = extend_lease_lem id a.agent (t.0 + lease_ttl) t.1 w' r h2 in
    (
      named,
      old,
      subst (λ (p : ℕ × Work). StoredAs id p.1.st.runs old) back stored,
      own,
      subst (λ (p : ℕ × Work). w' ≡ renew id (p.0 + lease_ttl) old p.1) back w'_is,
    )

-- The time at which a Bot was last seen, where its agent is still there.
abbrev pub seen_at : Bool → Time → Option BotSeen → Option BotSeen
seen_at b at none = none
seen_at b at (some s) = if b then some (record s { last_seen = at }) else some s

unseen : (at : Time) (o : Option BotSeen) → o ≡ seen_at false at o
unseen at none = refl
unseen at (some s) = refl

bot_seen :
    (id : Text) (at : Time) (o : Option BotSeen) (p : Presence) (i : Text)
    → get_key id p.bots ≡ o
    → get_key i (seen_again id at o p).bots ≡ seen_at (text_eq id i) at (get_key i p.bots)
unfolding get_key
bot_seen id at none p i e = elim (Bool-cases (text_eq id i)) [
  | inl y ↦
      let gone = ap (λ k. get_key k p.bots) (sym (text_eq-true id i y)) ∙ e in rw (y, gone) refl
  | inr n ↦ rw n (unseen at (get_key i p.bots))
]
bot_seen id at (some b) p i e = elim (Bool-cases (text_eq id i)) [
  | inl y ↦
      let there = ap (λ k. get_key k p.bots) (sym (text_eq-true id i y)) ∙ e in rw (y, there) refl
  | inr n ↦ rw n (get_key-delete id i p.bots ∙ rw n (unseen at (get_key i p.bots)))
]

-- What stillThere leaves of presence: the Bot that is named was seen now.
abbrev pub IsSeen : Text → Time → Presence → Presence → Type 0
IsSeen id at p p' =
    (p'.people ≡ p.people)
    × (p'.published ≡ p.published)
    × ((i : Text)
        → get_key i p'.bots ≡ seen_at (not (is_empty id) && text_eq id i) at (get_key i p.bots))

-- Only the Bots are looked at.
people_stay :
    (id : Text) (at : Time) (o : Option BotSeen) (p : Presence)
    → ((seen_again id at o p).people ≡ p.people) × ((seen_again id at o p).published ≡ p.published)
people_stay id at none p = (refl, refl)
people_stay id at (some b) p = (refl, refl)

still_there-IsSeen : (id : Text) (at : Time) (p : Presence) → IsSeen id at p (still_there id at p)
unfolding still_there
still_there-IsSeen id at p = elim (Bool-cases (is_empty id)) [
  | inl y ↦ rw y (refl, refl, λ i. unseen at (get_key i p.bots))
  | inr n ↦
      let (people, published) = people_stay id at (get_key id p.bots) p in
      rw n (people, published, λ i. bot_seen id at (get_key id p.bots) p i refl)
]

-- A heartbeat that succeeds comes from an agent, and the Run that it names is stored and held by
-- this agent. All that it changes in the database is that Run's lease, to end `lease_ttl` from now,
-- and that only while the Run is running; all that it changes of presence is when the agent's Bot,
-- if the Server process knows it, was last seen.
pub heartbeat_lem :
    (a : Actor) (id : Text) (at : Time) (p p' : Presence) (w w' : Work) (r : Run)
    → heartbeat a id at p w ≡ (p', returned r w')
    → (is_empty a.agent ≡ false)
      × (old : Run) × StoredAs id w.st.runs old
      × (text_eq old.worker a.agent ≡ true)
      × (w' ≡ renew id (w.now + lease_ttl) old w)
      × IsSeen a.bot_id at p p'
unfolding heartbeat
heartbeat_lem a id at p p' w w' r h =
    let (named, old, stored, own, w'_is) = beat_lem a id w w' r (ap (λ q. q.1) h) in
    let p'_is : still_there a.bot_id at p ≡ p' =
      subst (λ b. (if b then p else still_there a.bot_id at p) ≡ p') named (ap (λ q. q.0) h) in
    (
      named,
      old,
      stored,
      own,
      w'_is,
      subst (IsSeen a.bot_id at p) p'_is (still_there-IsSeen a.bot_id at p),
    )

cancels : (next : RunStatus) (rep : RunReport) → only_cancels next rep ≡ true → next ≡ canceled
cancels next rep h = same_status-true next canceled (ground (arith, h))

checked_person :
    (a : Actor) (rep : RunReport) (c : Checked)
    → is_empty a.agent ≡ true
    → check_report a rep ≡ ok c
    → c.next ≡ canceled
unfolding check_report
checked_person a rep c person h =
    let (next, _, h1) = and_then_ok _ _ c h in
    let (u, denied, h2) = and_then_ok _ _ c h1 in
    let (_, _, h3) = and_then_ok _ _ c h2 in
    let (_, _, h4) = and_then_ok _ _ c h3 in
    let (_, _, h5) = and_then_ok _ _ c h4 in
    let (_, _, h6) = and_then_ok _ _ c h5 in
    let (_, _, h7) = and_then_ok _ _ c h6 in
    let allowed = deny_ok (is_empty a.agent && not (only_cancels next rep)) invalid u denied in
    ap (λ k. k.next) (sym (ok_inj h7)) ∙ cancels next rep (ground (arith, allowed, person))

-- Without an agent's name a Run can be reported canceled, and nothing else.
pub report_run-person :
    (a : Actor) (id : Text) (rep : RunReport) (w w' : Work) (r : Run)
    → is_empty a.agent ≡ true
    → report_run a id rep w ≡ returned r w'
    → r.status ≡ canceled
unfolding apply_report
report_run-person a id rep w w' r person h =
    let (c, old, form, _, _, r_is) = report_run_lem a id rep w w' r h in
    ap (λ x. x.status) r_is ∙ checked_person a rep c person form

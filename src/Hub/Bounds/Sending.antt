-- ===== src/Hub/Bounds/Sending.antt =====
-- internal/ws/hub.go: enqueueLocked, subscribe and deliver against the limits of a connection.
use buildbee.Base.{
  ℕ, ◌≡◌, refl, true, false, Option, some, List, [], ◌∷◌, ◌++◌, arith, ltb, leb, length, Bool-cases,
  Option-cases, inl, inr, length-append,
}
use buildbee.Text.{Text}
use buildbee.Event.{Event}
use buildbee.Hub.Client.{
  Frame, PendingFrame, Sub, Client, sub_of, enqueue_locked, is_replayed, deliver_to, deliver,
  send_backlog, send_pending, release, finish_subscribe, max_pending, message_of,
}
use buildbee.Hub.Bounds.Waiting.{IsBounded, put-Few, put_length_known}

pub enqueue-IsBounded : (c : Client) (f : Frame) → IsBounded c → IsBounded (enqueue_locked c f)
unfolding enqueue_locked
enqueue-IsBounded c f b = elim (Bool-cases (ltb (length c.send) c.queue)) [
  | inl y ↦ rw y (record {
    queued = ground (arith, length-append c.send (message_of c f ∷ []));
    topics = b.topics;
    held = b.held;
  })
  | inr n ↦ rw n (record { queued = b.queued; topics = b.topics; held = b.held })
]

pub backlog-IsBounded :
    (encode : Event → Option Frame) (es : List Event) (r : List ℕ) (c : Client)
    → IsBounded c
    → IsBounded (send_backlog encode es r c).1
unfolding send_backlog
backlog-IsBounded encode [] r c b = b
backlog-IsBounded encode (e ∷ es) r c b = elim (Option-cases (encode e)) [
  | inl n ↦ rw (n, send_backlog) (backlog-IsBounded encode es r c b)
  | inr (f, n) ↦
      rw (n, send_backlog)
        (backlog-IsBounded encode es (e.cursor ∷ r) (enqueue_locked c f) (enqueue-IsBounded c f b))
]

pub pending-IsBounded :
    (r : List ℕ) (ps : List PendingFrame) (c : Client)
    → IsBounded c
    → IsBounded (send_pending r ps c)
unfolding send_pending
pending-IsBounded r [] c b = b
pending-IsBounded r (p ∷ ps) c b = elim (Bool-cases (is_replayed r p.cursor)) [
  | inl y ↦ rw (y, send_pending) (pending-IsBounded r ps c b)
  | inr n ↦
      rw (n, send_pending)
        (pending-IsBounded r ps (enqueue_locked c p.frame) (enqueue-IsBounded c p.frame b))
]

pub enqueue_subs : (c : Client) (f : Frame) → (enqueue_locked c f).subs ≡ c.subs
unfolding enqueue_locked
enqueue_subs c f = ground arith

pub backlog_subs :
    (encode : Event → Option Frame) (es : List Event) (r : List ℕ) (c : Client)
    → (send_backlog encode es r c).1.subs ≡ c.subs
unfolding send_backlog
backlog_subs encode [] r c = refl
backlog_subs encode (e ∷ es) r c = elim (Option-cases (encode e)) [
  | inl n ↦ rw (n, send_backlog) (backlog_subs encode es r c)
  | inr (f, n) ↦
      rw (n, send_backlog)
        (ground
          (arith, backlog_subs encode es (e.cursor ∷ r) (enqueue_locked c f), enqueue_subs c f))
]

pub pending_subs :
    (r : List ℕ) (ps : List PendingFrame) (c : Client) → (send_pending r ps c).subs ≡ c.subs
unfolding send_pending
pending_subs r [] c = refl
pending_subs r (p ∷ ps) c = ground (
  arith,
  pending_subs r ps c,
  pending_subs r ps (enqueue_locked c p.frame),
  enqueue_subs c p.frame,
)

pub release-IsBounded :
    (encode : Event → Option Frame) (c : Client) (t : Text) (s : Sub) (es : List Event)
    → sub_of t c.subs ≡ some s
    → IsBounded c
    → IsBounded (release encode c t s es)
unfolding release
release-IsBounded encode c t s es e b =
    let sent : Client = (send_backlog encode es s.replayed c).1 in
    let r : List ℕ = (send_backlog encode es s.replayed c).0 in
    let late : IsBounded (send_pending r s.pending sent) =
      pending-IsBounded r s.pending sent (backlog-IsBounded encode es s.replayed c b) in
    let known : sub_of t (send_pending r s.pending sent).subs ≡ some s =
      rw (pending_subs r s.pending sent, backlog_subs encode es s.replayed c) e in
    record {
      queued = late.queued;
      topics = omega (
        arith,
        late.topics,
        put_length_known t (record { ready = true; pending = []; replayed = r }) s
            (send_pending r s.pending sent).subs known,
      );
      held = put-Few t _ (send_pending r s.pending sent).subs (omega arith) late.held;
    }

pub finish-IsBounded :
    (encode : Event → Option Frame) (c : Client) (t : Text) (es : List Event)
    → IsBounded c
    → IsBounded (finish_subscribe encode c t es)
unfolding finish_subscribe
finish-IsBounded encode c t es b = elim (Option-cases (sub_of t c.subs)) [
  | inl n ↦ rw (n, finish_subscribe) b
  | inr (s, n) ↦ rw (n, finish_subscribe) (release-IsBounded encode c t s es n b)
]

pub deliver_to-IsBounded :
    (c : Client) (t : Text) (s : Sub) (p : PendingFrame)
    → sub_of t c.subs ≡ some s
    → IsBounded c
    → IsBounded (deliver_to c t s p)
unfolding deliver_to
deliver_to-IsBounded c t s p e b = elim (Bool-cases s.ready) [
  | inl y ↦ elim (Bool-cases (is_replayed s.replayed p.cursor)) [
    | inl dup ↦ rw (y, deliver_to) (rw dup b)
    | inr fresh ↦ rw (y, deliver_to) (rw fresh (enqueue-IsBounded c p.frame b))
  ]
  | inr n ↦ elim (Bool-cases (leb max_pending (length s.pending))) [
    | inl full ↦
        rw (n, deliver_to)
          (rw full (record { queued = b.queued; topics = b.topics; held = b.held }))
    | inr room ↦
        let s' : Sub = record {
          ready = false;
          pending = s.pending ++ p ∷ [];
          replayed = s.replayed;
        } in
        rw (n, deliver_to)
          (rw room (record {
            queued = b.queued;
            topics = omega (arith, b.topics, put_length_known t s' s c.subs e);
            held =
                put-Few t s' c.subs (ground (arith, room, length-append s.pending (p ∷ []))) b.held;
          }))
  ]
]

pub deliver-IsBounded :
    (c : Client) (t : Text) (p : PendingFrame) → IsBounded c → IsBounded (deliver c t p)
unfolding deliver
deliver-IsBounded c t p b = elim (Option-cases (sub_of t c.subs)) [
  | inl n ↦ rw (n, deliver) b
  | inr (s, n) ↦ rw (n, deliver) (deliver_to-IsBounded c t s p n b)
]

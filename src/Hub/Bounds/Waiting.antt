-- ===== src/Hub/Bounds/Waiting.antt =====
-- internal/ws/hub.go: the limits of a connection's topics and of the events that wait.
use buildbee.Base.{◌+◌, ◌≤◌, ◌≡◌, some, List, [], ◌∷◌, arith, length, All, Bool-cases, inl, inr}
use buildbee.Text.{Text, text_eq}
use buildbee.Hub.Client.{Sub, Client, sub_of, put_sub, delete_sub, max_pending, max_topics}

abbrev pub Few : Text × Sub → Type 0
Few (t, s) = length s.pending ≤ max_pending

pub record IsBounded (c : Client) : Type 0 where
  pub queued : length c.send ≤ c.queue
  pub topics : length c.subs ≤ max_topics
  pub held : All Few c.subs

pub Few-of :
    (t : Text) (m : List (Text × Sub)) (s : Sub)
    → All Few m
    → sub_of t m ≡ some s
    → length s.pending ≤ max_pending
unfolding sub_of
Few-of t [] s a e = cc
Few-of t ((k, r) ∷ m) s a e = elim (Bool-cases (text_eq k t)) [
  | inl y ↦ ground (arith, y, a.0)
  | inr n ↦ Few-of t m s a.1 (ground (arith, n))
]

pub put-Few :
    (t : Text) (s : Sub) (m : List (Text × Sub))
    → length s.pending ≤ max_pending
    → All Few m
    → All Few (put_sub t s m)
unfolding put_sub
put-Few t s [] h a = (h, tt)
put-Few t s ((k, r) ∷ m) h a = elim (Bool-cases (text_eq k t)) [
  | inl y ↦ rw y (h, a.1)
  | inr n ↦ rw n (a.0, put-Few t s m h a.1)
]

pub put_length :
    (t : Text) (s : Sub) (m : List (Text × Sub)) → length (put_sub t s m) ≤ length m + 1
unfolding put_sub
put_length t s [] = omega arith
put_length t s ((k, r) ∷ m) = ground (arith, put_length t s m)

pub put_length_known :
    (t : Text) (s r : Sub) (m : List (Text × Sub))
    → sub_of t m ≡ some r
    → length (put_sub t s m) ≡ length m
unfolding put_sub sub_of
put_length_known t s r [] e = cc
put_length_known t s r ((k, q) ∷ m) e = ground (arith, put_length_known t s r m)

pub delete-Few : (t : Text) (m : List (Text × Sub)) → All Few m → All Few (delete_sub t m)
unfolding delete_sub
delete-Few t [] a = tt
delete-Few t ((k, r) ∷ m) a = elim (Bool-cases (text_eq k t)) [
  | inl y ↦ rw y (delete-Few t m a.1)
  | inr n ↦ rw n (a.0, delete-Few t m a.1)
]

pub delete_length : (t : Text) (m : List (Text × Sub)) → length (delete_sub t m) ≤ length m
unfolding delete_sub
delete_length t [] = omega arith
delete_length t ((k, r) ∷ m) = ground (arith, delete_length t m)

-- ===== src/Hub/Index.antt =====
-- Who is in the hub's index after each operation.
use buildbee.Base.{
  ℕ, ◌≡◌, ◌≢◌, refl, Bool, true, false, not, ◌&&◌, ◌||◌, List, [], ◌∷◌, arith, ◌==◌, if◌then◌else◌,
  exists, keep, Bool-cases, inl, inr, ◌∙◌,
}
use buildbee.Text.{Text, text_eq, text_eq_iff, text_eq_refl}
use buildbee.Hub.Client.{Client, registered, begin_subscribe}
use buildbee.Hub.Server.{
  Topics, Hub, has_client, followers, add_client, add_follower, remove_client, entry_or_drop,
  remove_follower, remove_everywhere, topic_names, detach, index_subscription, at_client,
}

-- Does the client follow the topic, as the index has it?
abbrev pub follows : Topics → Text → ℕ → Bool
follows m t c = has_client c (followers t m)

-- A map holds each key once, and no empty set.
abbrev pub Absent : Text → Topics → Type 0
Absent t [] = Unit {0}
Absent t ((k, cs) ∷ m) = (text_eq k t ≡ false) × Absent t m

abbrev pub IsIndex : Topics → Type 0
IsIndex [] = Unit {0}
IsIndex ((k, cs) ∷ m) = (cs ≢ []) × Absent k m × IsIndex m

has_client-add :
    (c d : ℕ) (cs : List ℕ) → has_client d (add_client c cs) ≡ ((c == d) || has_client d cs)
unfolding add_client has_client exists
has_client-add c d cs = elim (Bool-cases (has_client c cs)) [
  | inl e ↦ elim (Bool-cases (c == d)) [
    | inl same ↦ ground (arith, e)
    | inr other ↦ ground (arith, e)
  ]
  | inr e ↦ ground (arith, e)
]

has_client-remove :
    (c d : ℕ) (cs : List ℕ) → has_client d (remove_client c cs) ≡ (not (c == d) && has_client d cs)
unfolding remove_client has_client keep exists
has_client-remove c d [] = ground arith
has_client-remove c d (x ∷ xs) = ground (arith, has_client-remove c d xs)

-- Who follows a topic once a client has been entered.
follows-add :
    (m : Topics) (t u : Text) (c d : ℕ)
    → follows (add_follower t c m) u d ≡ ((text_eq t u && (c == d)) || follows m u d)
unfolding add_follower followers
follows-add [] t u c d = unfold has_client exists in ground arith
follows-add ((k, cs) ∷ m) t u c d = ground (
  arith,
  text_eq_iff k t,
  text_eq_iff k u,
  text_eq_iff t u,
  has_client-add c d cs,
  follows-add m t u c d,
)

followers-Absent : (t : Text) (m : Topics) → Absent t m → followers t m ≡ []
unfolding followers
followers-Absent t [] h = refl
followers-Absent t ((k, cs) ∷ m) h =
    ground (arith, followers-Absent t m h.1, text_eq_iff k t, text_eq_iff t k)

followers-entry :
    (k u : Text) (cs : List ℕ) (m : Topics)
    → Absent k m
    → followers u (entry_or_drop k cs m) ≡ (if text_eq k u then cs else followers u m)
unfolding followers entry_or_drop
followers-entry k u [] m h = ground (arith, text_eq_iff k u, followers-Absent k m h)
followers-entry k u (c ∷ cs) m h = refl

-- Who follows a topic once a client has been taken out of another.
follows-remove :
    (m : Topics) (t u : Text) (c d : ℕ)
    → IsIndex m
    → follows (remove_follower t c m) u d ≡ (not (text_eq t u && (c == d)) && follows m u d)
unfolding remove_follower followers
follows-remove [] t u c d h = unfold has_client exists in ground arith
follows-remove ((k, cs) ∷ m) t u c d h = elim (Bool-cases (text_eq k t)) [
  | inl e ↦ rw e (
      rw (followers-entry k u (remove_client c cs) m h.1) (
        ground
          (arith, e, text_eq_iff k t, text_eq_iff k u, text_eq_iff t u, has_client-remove c d cs)))
  | inr e ↦ rw e (
      ground
        (arith, e, text_eq_iff k t, text_eq_iff k u, text_eq_iff t u, follows-remove m t u c d h.2))
]

Absent-add :
    (m : Topics) (j t : Text) (c : ℕ)
    → text_eq j t ≡ false
    → Absent j m
    → Absent j (add_follower t c m)
unfolding add_follower
Absent-add [] j t c e h = ground (arith, text_eq_iff t j, text_eq_iff j t)
Absent-add ((k, cs) ∷ m) j t c e h = ground (arith, Absent-add m j t c e h.1)

add_client-ne : (c : ℕ) (cs : List ℕ) → cs ≢ [] → add_client c cs ≢ []
unfolding add_client
add_client-ne c cs h = ground arith

-- Entering a client keeps the index well formed.
add-IsIndex : (m : Topics) (t : Text) (c : ℕ) → IsIndex m → IsIndex (add_follower t c m)
unfolding add_follower
add-IsIndex [] t c h = (λ e. cc, tt, tt)
add-IsIndex ((k, cs) ∷ m) t c h = elim (Bool-cases (text_eq k t)) [
  | inl e ↦ rw e (add_client-ne c cs h.0, h.1, h.2)
  | inr e ↦ rw e (h.0, Absent-add m k t c e h.1, add-IsIndex m t c h.2)
]

Absent-entry :
    (j k : Text) (cs : List ℕ) (m : Topics)
    → text_eq k j ≡ false
    → Absent j m
    → Absent j (entry_or_drop k cs m)
unfolding entry_or_drop
Absent-entry j k [] m e h = h
Absent-entry j k (c ∷ cs) m e h = (e, h)

Absent-remove : (m : Topics) (j t : Text) (c : ℕ) → Absent j m → Absent j (remove_follower t c m)
unfolding remove_follower
Absent-remove [] j t c h = tt
Absent-remove ((k, cs) ∷ m) j t c h = elim (Bool-cases (text_eq k t)) [
  | inl e ↦ rw e (Absent-entry j k (remove_client c cs) m h.0 h.1)
  | inr e ↦ rw e (h.0, Absent-remove m j t c h.1)
]

entry-IsIndex :
    (k : Text) (cs : List ℕ) (m : Topics) → Absent k m → IsIndex m → IsIndex (entry_or_drop k cs m)
unfolding entry_or_drop
entry-IsIndex k [] m a h = h
entry-IsIndex k (c ∷ cs) m a h = (λ e. cc, a, h)

-- So does taking one out.
remove-IsIndex : (m : Topics) (t : Text) (c : ℕ) → IsIndex m → IsIndex (remove_follower t c m)
unfolding remove_follower
remove-IsIndex [] t c h = tt
remove-IsIndex ((k, cs) ∷ m) t c h = elim (Bool-cases (text_eq k t)) [
  | inl e ↦ rw e (entry-IsIndex k (remove_client c cs) m h.1 h.2)
  | inr e ↦ rw e (h.0, Absent-remove m k t c h.1, remove-IsIndex m t c h.2)
]

abbrev names_have : Text → List Text → Bool
names_have t ns = exists (λ n. text_eq n t) ns

everywhere-IsIndex :
    (ns : List Text) (c : ℕ) (m : Topics) → IsIndex m → IsIndex (remove_everywhere ns c m)
unfolding remove_everywhere
everywhere-IsIndex [] c m h = h
everywhere-IsIndex (n ∷ ns) c m h =
    everywhere-IsIndex ns c (remove_follower n c m) (remove-IsIndex m n c h)

follows-everywhere :
    (ns : List Text) (c d : ℕ) (u : Text) (m : Topics)
    → IsIndex m
    → follows (remove_everywhere ns c m) u d ≡ (not (names_have u ns && (c == d)) && follows m u d)
unfolding remove_everywhere exists
follows-everywhere [] c d u m h = ground arith
follows-everywhere (n ∷ ns) c d u m h = ground (
  arith,
  follows-everywhere ns c d u (remove_follower n c m) (remove-IsIndex m n c h),
  follows-remove m n u c d h,
)

-- Every topic that the index has for a client is among the client's own.
abbrev pub IsKnown : ℕ → Hub → Type 0
IsKnown c h =
    (t : Text) → follows h.topics t c ≡ true → names_have t (topic_names (h.client c).subs) ≡ true

-- A client that closes, and whose topics are all among its subscriptions, is taken out of every
-- topic of a well-formed index, nobody else is, and the index stays well formed.
pub detach_lem :
    (h : Hub) (c : ℕ)
    → IsIndex h.topics
    → IsKnown c h
    → IsIndex (detach c h).topics
      × ((t : Text) → follows (detach c h).topics t c ≡ false)
      × ((t : Text) (d : ℕ) → d ≢ c → follows (detach c h).topics t d ≡ follows h.topics t d)
unfolding detach
detach_lem h c i k = (
  everywhere-IsIndex (topic_names (h.client c).subs) c h.topics i,
  λ t. ground (arith, k t, follows-everywhere (topic_names (h.client c).subs) c c t h.topics i),
  λ t d ne. ground (arith, follows-everywhere (topic_names (h.client c).subs) c d t h.topics i),
)

-- A client that closes between the two critical sections of `subscribe` stays in the index, which
-- is well formed, though it is gone from the connections.
pub subscribe_leak :
    (h : Hub) (c : ℕ) (topic : Text) (x : Client)
    → IsIndex h.topics
    → begin_subscribe (h.client c) topic ≡ registered x
    → let late = index_subscription c topic (detach c (at_client c (λ _. x) h)) in
      (follows late.topics topic c ≡ true) × (has_client c late.conns ≡ false)
unfolding index_subscription detach at_client
subscribe_leak h c topic x i b = (
  follows-add _ topic topic c c ∙ ground (arith, text_eq_refl topic),
  has_client-remove c c h.conns ∙ ground arith,
)

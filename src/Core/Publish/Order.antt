-- ===== src/Core/Publish/Order.antt =====
-- The events of a transaction in the order of their topics.
use buildbee.Base.{
  ℕ, suc, ◌≡◌, refl, ap, ◌∙◌, subst, true, false, List, [], ◌∷◌, All, map, keep, length, arith,
  if◌then◌else◌, Bool-cases, inl, inr,
}
use buildbee.Base.Sort.{sort_by, insert_by, All-sort}
use buildbee.Text.{Text, text_eq, text_eq_refl, text_eq-true}
use buildbee.Event.{Event}
use buildbee.Core.Publish.{
  about_topic, by_cursor, group_of, head_or, tail_of, advanced, fill, in_topic_order,
}

IsGroup : Text → ℕ → List Event → Type 0
IsGroup t n gs = (length gs ≡ n) × All (λ g. about_topic t g ≡ true) gs

-- Each topic's group has an event for each slot that is left, and none of another topic.
abbrev Fits : (Text → List Event) → List Event → Type 0
Fits groups es = (t : Text) → IsGroup t (length (keep (about_topic t) es)) (groups t)

module _ (t : Text) (n : ℕ) where
  head-about :
      (e : Event) (gs : List Event)
      → IsGroup t (suc n) gs
      → (about_topic t (head_or e gs) ≡ true) × (head_or e gs ∷ tail_of gs ≡ gs)
  unfolding IsGroup
  head-about e [] h = ground (arith, h.0)
  head-about e (g ∷ gs) h = (h.1.0, refl)

  tail-IsGroup : (gs : List Event) → IsGroup t (suc n) gs → IsGroup t n (tail_of gs)
  unfolding IsGroup
  tail-IsGroup [] h = omega (arith, h.0)
  tail-IsGroup (g ∷ gs) h = (omega (arith, h.0), h.1.1)

-- The group of a slot's own topic is not empty.
own-IsGroup :
    (groups : Text → List Event) (e : Event) (rest : List Event)
    → Fits groups (e ∷ rest)
    → IsGroup e.topic (suc (length (keep (about_topic e.topic) rest))) (groups e.topic)
unfolding keep
own-IsGroup groups e rest fits =
    subst
      (λ b.
        IsGroup e.topic
          (length
            (if b then e ∷ keep (about_topic e.topic) rest else keep (about_topic e.topic) rest))
          (groups e.topic))
      (text_eq_refl e.topic) (fits e.topic)

advanced-Fits :
    (groups : Text → List Event) (e : Event) (rest : List Event)
    → Fits groups (e ∷ rest)
    → Fits (advanced e.topic groups) rest
unfolding keep
advanced-Fits groups e rest fits u = elim (Bool-cases (text_eq e.topic u)) [
  | inl y ↦
      subst (λ v. IsGroup v (length (keep (about_topic v) rest)) (advanced e.topic groups v))
        (text_eq-true e.topic u y)
        (rw (text_eq_refl e.topic)
          (tail-IsGroup e.topic _ (groups e.topic) (own-IsGroup groups e rest fits)))
  | inr n ↦ rw n (
      subst
        (λ b.
          IsGroup u
            (length (if b then e ∷ keep (about_topic u) rest else keep (about_topic u) rest))
            (groups u))
        n (fits u))
]

no_slot : (gs : List Event) → length gs ≡ 0 → [] ≡ gs
no_slot [] h = refl
no_slot (g ∷ gs) h = ground (arith, h)

fill-topic :
    (groups : Text → List Event) (es : List Event)
    → Fits groups es
    → (t : Text) → keep (about_topic t) (fill groups es) ≡ groups t
unfolding fill keep IsGroup
fill-topic groups [] fits t = no_slot (groups t) (fits t).0
fill-topic groups (e ∷ rest) fits t =
    let h = head_or e (groups e.topic) in
    let (head_is, whole) =
      head-about e.topic _ e (groups e.topic) (own-IsGroup groups e rest fits) in
    let below = fill-topic (advanced e.topic groups) rest (advanced-Fits groups e rest fits) t in
    elim (Bool-cases (text_eq e.topic t)) [
      | inl y ↦
          let same = text_eq-true e.topic t y in
          let here : about_topic t h ≡ true = subst (λ u. about_topic u h ≡ true) same head_is in
          rw here (
            ap (λ r. h ∷ r) (below ∙ rw y refl)
            ∙ subst (λ u. h ∷ tail_of (groups u) ≡ groups u) same whole)
      | inr n ↦
          let elsewhere : about_topic t h ≡ false =
            ap (λ x. text_eq x t) (text_eq-true h.topic e.topic head_is) ∙ n in
          rw elsewhere (below ∙ rw n refl)
    ]

fill-slots :
    (groups : Text → List Event) (es : List Event)
    → Fits groups es
    → map (λ e. e.topic) (fill groups es) ≡ map (λ e. e.topic) es
unfolding fill
fill-slots groups [] fits = refl
fill-slots groups (e ∷ rest) fits =
    let (head_is, _) = head-about e.topic _ e (groups e.topic) (own-IsGroup groups e rest fits) in
    let below = fill-slots (advanced e.topic groups) rest (advanced-Fits groups e rest fits) in
    cc (text_eq-true (head_or e (groups e.topic)).topic e.topic head_is, below)

insert-length : (e : Event) (es : List Event) → length (insert_by by_cursor e es) ≡ suc (length es)
unfolding insert_by
insert-length e [] = refl
insert-length e (x ∷ xs) = ground (arith, insert-length e xs)

sort-length : (es : List Event) → length (sort_by by_cursor es) ≡ length es
unfolding sort_by
sort-length [] = refl
sort-length (e ∷ es) = insert-length e (sort_by by_cursor es) ∙ ap suc (sort-length es)

keep-about :
    (t : Text) (es : List Event) → All (λ g. about_topic t g ≡ true) (keep (about_topic t) es)
unfolding keep
keep-about t [] = tt
keep-about t (e ∷ es) = ground (arith, keep-about t es)

groups-Fits : (es : List Event) → Fits (group_of es) es
unfolding group_of IsGroup
groups-Fits es t = (
  sort-length (keep (about_topic t) es),
  All-sort by_cursor _ (keep (about_topic t) es) (keep-about t es),
)

-- inTopicOrder leaves every slot to the topic that it had, and within each topic its events stand
-- as a stable sort by cursor puts them.
pub in_topic_order_lem :
    (es : List Event)
    → (map (λ e. e.topic) (in_topic_order es) ≡ map (λ e. e.topic) es)
      × ((t : Text)
          → keep (about_topic t) (in_topic_order es) ≡ sort_by by_cursor (keep (about_topic t) es))
unfolding in_topic_order group_of
in_topic_order_lem es =
    (fill-slots (group_of es) es (groups-Fits es), fill-topic (group_of es) es (groups-Fits es))

-- ===== src/Core/Pilot/Checks/Approval.antt =====
-- `reviewed` and the loop of `tryMerge` of internal/core/autopilot.go: what it means that the latest
-- work is approved.
use buildbee.Base.{
  ◌≤◌, ◌≡◌, ◌⊎◌, refl, subst, Bool, true, false, not, ◌&&◌, ◌||◌, Option, none, some, List, [], ◌∷◌,
  arith, All, Any, Any-self, first, first-All, is_empty, Bool-cases, Option-cases, inl, inr,
}
use buildbee.Base.Sort.{sort_by, All-sort}
use buildbee.Base.Sort.Order.{first-sort, All-sort_back}
use buildbee.Text.{text_eq}
use buildbee.Models.Status.{RunKind, build, review}
use buildbee.Models.Records.{Run, Task}
use buildbee.Store.Runs.{newer}
use buildbee.Store.Runs.Claim.{text_leb-total, text_leb_trans}
use buildbee.Core.Pilot.Checks.{
  approves, reviewed, not_before, last_of, approved_by, approved, succeeded_as,
}

newer-total : (a b : Run) → (newer a b ≡ true) ⊎ (newer b a ≡ true)
newer-total a b = elim (text_leb-total a.id b.id) [
  | inl h ↦ ground (arith, h)
  | inr h ↦ ground (arith, h)
]

newer_trans : (a b c : Run) → newer a b ≡ true → newer b c ≡ true → newer a c ≡ true
newer_trans a b c h k = ground (arith, text_leb_trans a.id b.id c.id)

newer_created : (a b : Run) → newer a b ≡ true → b.created_at ≤ a.created_at
newer_created a b h = ground (arith, h)

-- The Run is one of the Task's, has succeeded at its kind of work, and none that has is newer.
abbrev pub IsLast : RunKind → List Run → Run → Type 0
IsLast kind rs r =
    Any (λ x. x ≡ r) rs
    × (succeeded_as kind r ≡ true)
    × All (λ x. succeeded_as kind x ≡ true → x.created_at ≤ r.created_at) rs

All-created :
    (kind : RunKind) (r : Run) (rs : List Run)
    → All (λ x. succeeded_as kind x ≡ true → newer r x ≡ true) rs
    → All (λ x. succeeded_as kind x ≡ true → x.created_at ≤ r.created_at) rs
All-created kind r [] h = tt
All-created kind r (x ∷ rs) h = (λ e. newer_created r x (h.0 e), All-created kind r rs h.1)

last_of-IsLast :
    (kind : RunKind) (r : Run) (rs : List Run)
    → last_of kind (sort_by newer rs) ≡ some r
    → IsLast kind rs r
last_of-IsLast kind r rs h =
    let listed = All-sort newer (λ q. Any (λ x. x ≡ q) rs) rs (Any-self rs) in
    let (there, passes) = first-All _ (succeeded_as kind) r (sort_by newer rs) listed h in
    (
      there,
      passes,
      All-created kind r rs (first-sort newer newer-total newer_trans (succeeded_as kind) r rs h),
    )

-- Is the review about the latest work? Where the commits of both are known, it is of the very head
-- commit, and nothing else counts; where one is not, no build that succeeded is newer than it.
abbrev pub IsCurrent : List Run → Task → Run → Type 0
IsCurrent rs task r =
    ((is_empty r.commit ≡ false)
      × (is_empty task.head_commit ≡ false)
      × (text_eq r.commit task.head_commit ≡ true))
    ⊎ (((is_empty r.commit || is_empty task.head_commit) ≡ true)
        × All (λ x. succeeded_as build x ≡ true → x.created_at ≤ r.created_at) rs)

first-none :
    (p : Run → Bool) (Q : Run → Type 0) (xs : List Run)
    → first p xs ≡ none
    → All (λ x. p x ≡ true → Q x) xs
unfolding first
first-none p Q [] h = tt
first-none p Q (x ∷ xs) h = elim (Bool-cases (p x)) [
  | inl e ↦ ground (arith, e, h)
  | inr n ↦ (λ e. ground (arith, e, n), first-none p Q xs (ground (arith, n, h)))
]

abbrev NoLater : Run → Run → Type 0
NoLater r x = succeeded_as build x ≡ true → x.created_at ≤ r.created_at

NoLater-than :
    (r : Run) (b : Run) (xs : List Run)
    → b.created_at ≤ r.created_at
    → All (λ x. succeeded_as build x ≡ true → x.created_at ≤ b.created_at) xs
    → All (NoLater r) xs
NoLater-than r b [] h k = tt
NoLater-than r b (x ∷ xs) h k =
    (λ e. let le = k.0 e in omega (arith, le, h), NoLater-than r b xs h k.1)

not_before-All :
    (r : Run) (rs : List Run) (o : Option Run)
    → last_of build (sort_by newer rs) ≡ o
    → not_before r o ≡ true
    → All (NoLater r) rs
not_before-All r rs none e h =
    All-sort_back newer newer-total newer_trans (NoLater r) rs
      (first-none (succeeded_as build) (λ x. x.created_at ≤ r.created_at) (sort_by newer rs) e)
not_before-All r rs (some b) e h =
    NoLater-than r b rs (ground (arith, h)) (last_of-IsLast build b rs e).2

reviewed-IsCurrent :
    (r : Run) (rs : List Run) (task : Task)
    → reviewed r (last_of build (sort_by newer rs)) task ≡ true
    → IsCurrent rs task r
unfolding reviewed
reviewed-IsCurrent r rs task h =
    elim (Bool-cases (not (is_empty r.commit) && not (is_empty task.head_commit))) [
      | inl e ↦ inl (ground (arith, e), ground (arith, e), ground (arith, e, h))
      | inr n ↦ inr (
        ground (arith, n),
        not_before-All r rs (last_of build (sort_by newer rs)) refl (ground (arith, n, h)),
      )
    ]

approved_by-some :
    (r : Run) (b : Option Run) (task : Task)
    → approved_by (some r) b task ≡ true
    → (approves r.verdict ≡ true) × (reviewed r b task ≡ true)
approved_by-some r b task h = (ground (arith, h), ground (arith, h))

-- When tryMerge takes a Task's work for approved, on the Task's Runs `rs` in the order of ListRuns, then
-- the newest review that succeeded approves, and it is about the latest work: where its commit and
-- the Task's head commit are known, these are the same, and where one of them is not, no build that
-- succeeded is newer than the review.
pub approved_lem :
    (rs : List Run) (task : Task)
    → approved (sort_by newer rs) task ≡ true
    → (r : Run) × IsLast review rs r × (approves r.verdict ≡ true) × IsCurrent rs task r
unfolding approved
approved_lem rs task h = elim (Option-cases (last_of review (sort_by newer rs))) [
  | inl e ↦
      ground (arith, subst (λ o. approved_by o (last_of build (sort_by newer rs)) task ≡ true) e h)
  | inr (r, e) ↦
      let k = subst (λ o. approved_by o (last_of build (sort_by newer rs)) task ≡ true) e h in
      let (consents, current) = approved_by-some r (last_of build (sort_by newer rs)) task k in
      (r, last_of-IsLast review r rs e, consents, reviewed-IsCurrent r rs task current)
]

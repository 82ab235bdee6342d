-- ===== src/Core/Pilot/Checks/Green.antt =====
-- `ciState` of internal/core/autopilot.go: what it means that CI passed.
use buildbee.Base.{
  Any, Any-self, ◌≤◌, ◌≡◌, refl, sym, ◌∙◌, true, false, Option, none, some, List, [], ◌∷◌, arith,
  All, exists, first, ltb, if◌then◌else◌, Bool-cases, inl, inr,
}
use buildbee.Text.{text_eq, text_eq-true}
use buildbee.Models.Status.{PipelineStatus, pipeline_pending, pipeline_success, pipeline_failure}
use buildbee.Models.Records.{Task, Run, Pipeline}
use buildbee.Core.Pilot.Checks.{
  counts, keep_latest, latest_checks, is_failure, is_pending, judge, judged, ci_state,
}

-- A check of the same name that is no older.
abbrev pub Covers : Pipeline → Pipeline → Type 0
Covers p q = (q.name ≡ p.name) × (p.updated_at ≤ q.updated_at)

abbrev pub Reported : List Pipeline → Pipeline → Type 0
Reported ps q = Any (λ x. x ≡ q) ps

any_all :
    {P Q : Pipeline → Type 0} (xs : List Pipeline)
    → Any P xs
    → All Q xs
    → (x : Pipeline) × P x × Q x
any_all [] h all = absurd h
any_all (x ∷ xs) (inl h) all = (x, h, all.0)
any_all (x ∷ xs) (inr h) all = any_all xs h all.1

abbrev newest_of : Pipeline → Pipeline → Pipeline
newest_of p q = if ltb q.updated_at p.updated_at then p else q

newest-p : (p q : Pipeline) → q.name ≡ p.name → Covers p (newest_of p q)
newest-p p q e = elim (Bool-cases (ltb q.updated_at p.updated_at)) [
  | inl y ↦ rw y (refl, omega arith)
  | inr n ↦ rw n (e, ground (arith, n))
]

newest-q : (p q r : Pipeline) → q.name ≡ p.name → Covers r q → Covers r (newest_of p q)
newest-q p q r e h = elim (Bool-cases (ltb q.updated_at p.updated_at)) [
  | inl y ↦ rw y (sym e ∙ h.0, ground (arith, y, h.1))
  | inr n ↦ rw n h
]

keep_latest-new : (p : Pipeline) (qs : List Pipeline) → Any (Covers p) (keep_latest p qs)
unfolding keep_latest
keep_latest-new p [] = inl (refl, omega arith)
keep_latest-new p (q ∷ qs) = elim (Bool-cases (text_eq q.name p.name)) [
  | inl e ↦ rw e (inl (newest-p p q (text_eq-true q.name p.name e)))
  | inr n ↦ rw n (inr (keep_latest-new p qs))
]

keep_latest-old :
    (p r : Pipeline) (qs : List Pipeline) → Any (Covers r) qs → Any (Covers r) (keep_latest p qs)
unfolding keep_latest
keep_latest-old p r [] h = absurd h
keep_latest-old p r (q ∷ qs) h = elim (Bool-cases (text_eq q.name p.name)) [
  | inl e ↦
      rw e
        (elim h [ inl c ↦ inl (newest-q p q r (text_eq-true q.name p.name e) c) | inr k ↦ inr k ])
  | inr n ↦ rw n (elim h [ inl c ↦ inl c | inr k ↦ inr (keep_latest-old p r qs k) ])
]

keep_latest-All :
    (P : Pipeline → Type 0) (p : Pipeline) (qs : List Pipeline)
    → P p
    → All P qs
    → All P (keep_latest p qs)
unfolding keep_latest
keep_latest-All P p [] h hs = (h, tt)
keep_latest-All P p (q ∷ qs) h hs = elim (Bool-cases (text_eq q.name p.name)) [
  | inl e ↦ rw e (elim (Bool-cases (ltb q.updated_at p.updated_at)) [
    | inl y ↦ rw y (h, hs.1)
    | inr n ↦ rw n hs
  ])
  | inr n ↦ rw n (hs.0, keep_latest-All P p qs h hs.1)
]

module _ (task : Task) (built : Option Run) where
  -- One turn of the loop.
  abbrev turn : Pipeline → List Pipeline → List Pipeline
  turn p latest = if counts task built p then keep_latest p latest else latest

  turn-old :
      (p r : Pipeline) (latest : List Pipeline)
      → Any (Covers r) latest
      → Any (Covers r) (turn p latest)
  turn-old p r latest h = elim (Bool-cases (counts task built p)) [
    | inl y ↦ rw y (keep_latest-old p r latest h)
    | inr n ↦ rw n h
  ]

  latest-old :
      (r : Pipeline) (ps latest : List Pipeline)
      → Any (Covers r) latest
      → Any (Covers r) (latest_checks task built ps latest)
  unfolding latest_checks
  latest-old r [] latest h = h
  latest-old r (p ∷ ps) latest h = latest-old r ps (turn p latest) (turn-old p r latest h)

  -- Every check that counts is covered in the end.
  latest-Covers :
      (ps latest : List Pipeline)
      → All
          (λ p. counts task built p ≡ true → Any (Covers p) (latest_checks task built ps latest))
          ps
  unfolding latest_checks
  latest-Covers [] latest = tt
  latest-Covers (p ∷ ps) latest = (
    λ y. latest-old p ps (turn p latest) (rw y (keep_latest-new p latest)),
    latest-Covers ps (turn p latest),
  )

  -- What is kept was reported.
  latest-All :
      (P : Pipeline → Type 0) (ps latest : List Pipeline)
      → All P ps
      → All P latest
      → All P (latest_checks task built ps latest)
  unfolding latest_checks
  latest-All P [] latest h k = k
  latest-All P (p ∷ ps) latest h k =
      latest-All P ps (turn p latest) h.1 (elim (Bool-cases (counts task built p)) [
        | inl y ↦ rw y (keep_latest-All P p latest h.0 k)
        | inr n ↦ rw n k
      ])

succeeds : (s : PipelineStatus) → is_failure s ≡ false → is_pending s ≡ false → s ≡ pipeline_success
succeeds pipeline_success f p = refl
succeeds pipeline_failure f p = ground (arith, f)
succeeds pipeline_pending f p = ground (arith, p)

green_list :
    (xs : List Pipeline)
    → first (λ p. is_failure p.status) xs ≡ none
    → exists (λ p. is_pending p.status) xs ≡ false
    → All (λ p. p.status ≡ pipeline_success) xs
unfolding first exists
green_list [] f e = tt
green_list (x ∷ xs) f e = elim (Bool-cases (is_failure x.status)) [
  | inl y ↦ ground (arith, y, f)
  | inr n ↦ (
    succeeds x.status n (ground (arith, e)),
    green_list xs (ground (arith, n, f)) (ground (arith, e)),
  )
]

judged-green :
    (o : Option Pipeline) (xs : List Pipeline)
    → (judged o xs).0 ≡ pipeline_success
    → (o ≡ none) × (exists (λ p. is_pending p.status) xs ≡ false)
judged-green none xs h = (
  refl,
  elim (Bool-cases (exists (λ p. is_pending p.status) xs)) [
    | inl y ↦ ground (arith, y, h)
    | inr n ↦ n
  ],
)
judged-green (some p) xs h = ground (arith, h)

judge-green :
    (xs : List Pipeline)
    → (judge xs).0 ≡ pipeline_success
    → All (λ p. p.status ≡ pipeline_success) xs
unfolding judge
judge-green [] h = ground (arith, h)
judge-green (x ∷ xs) h =
    let (f, e) = judged-green (first (λ p. is_failure p.status) (x ∷ xs)) (x ∷ xs) h in
    green_list (x ∷ xs) f e

abbrev pub IsGreen : List Pipeline → Pipeline → Type 0
IsGreen ps q = Reported ps q × (q.status ≡ pipeline_success)

-- The check `p` was run again, or not, and passed: `q` is a report of the same name, no older.
abbrev pub PassedAs : List Pipeline → Pipeline → Type 0
PassedAs ps p = (q : Pipeline) × Covers p q × IsGreen ps q

both :
    (P Q : Pipeline → Type 0) (xs : List Pipeline) → All P xs → All Q xs → All (λ x. P x × Q x) xs
both P Q [] h k = tt
both P Q (x ∷ xs) h k = ((h.0, k.0), both P Q xs h.1 k.1)

All-map :
    {P Q : Pipeline → Type 0} (xs : List Pipeline)
    → ((x : Pipeline) → P x → Q x)
    → All P xs
    → All Q xs
All-map [] f h = tt
All-map (x ∷ xs) f h = (f x h.0, All-map xs f h.1)

-- When CI is judged to have passed, every reported check that counts for the latest push has a
-- report of the same name, no older than it, that is a success: a failure is forgiven only by
-- another run, no older, of the same check.
pub ci_state-success :
    (ps : List Pipeline) (task : Task) (built : Option Run)
    → (ci_state ps task built).0 ≡ pipeline_success
    → All (λ p. counts task built p ≡ true → PassedAs ps p) ps
unfolding ci_state
ci_state-success [] task built h = tt
ci_state-success (x ∷ xs) task built h =
    let latest = latest_checks task built (x ∷ xs) [] in
    let green = judge-green latest h in
    let listed = latest-All task built (Reported (x ∷ xs)) (x ∷ xs) [] (Any-self (x ∷ xs)) tt in
    All-map (x ∷ xs) (λ p covered y. any_all latest (covered y) (both _ _ latest listed green))
      (latest-Covers task built (x ∷ xs) [])

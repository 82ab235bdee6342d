-- ===== src/Store/Runs/Claim.antt =====
-- ClaimRun of internal/store/runs.go: which Run it picks, and what it does to it.
use buildbee.Base.{
  ◌≡◌, ◌⊎◌, refl, sym, ap, ◌∙◌, subst, true, some, List, [], ◌∷◌, arith, All, keep, keep-All,
  keep-All_back, List-cases, inl, inr,
}
use buildbee.Base.Result.{not_found, ok, err, ok_inj}
use buildbee.Base.Sort.{sort_by, All-sort, sort-least, sort-none}
use buildbee.Text.{Text}
use buildbee.Models.Records.{Time, Run}
use buildbee.Store.{Work}
use buildbee.Store.Rows.{find_row, update_row}
use buildbee.Store.Rows.Keyed.{IsKeyed, IsKeyed-Found}
use buildbee.Store.Runs.{
  run_key, set_runs, change_run, claimable, text_leb, claim_le, claimed, claim_run,
}

pub text_leb-total : (a b : Text) → (text_leb a b ≡ true) ⊎ (text_leb b a ≡ true)
unfolding text_leb
text_leb-total [] b = inl refl
text_leb-total (x ∷ xs) [] = inr refl
text_leb-total (x ∷ xs) (y ∷ ys) = elim (text_leb-total xs ys) [
  | inl h ↦ ground (arith, h)
  | inr h ↦ ground (arith, h)
]

pub text_leb_trans :
    (a b c : Text) → text_leb a b ≡ true → text_leb b c ≡ true → text_leb a c ≡ true
unfolding text_leb
text_leb_trans [] b c h k = refl
text_leb_trans (x ∷ xs) [] c h k = ground (arith, h)
text_leb_trans (x ∷ xs) (y ∷ ys) [] h k = ground (arith, k)
text_leb_trans (x ∷ xs) (y ∷ ys) (z ∷ zs) h k = ground (arith, text_leb_trans xs ys zs)

claim_le-total : (rs : List Run) (a b : Run) → (claim_le rs a b ≡ true) ⊎ (claim_le rs b a ≡ true)
unfolding claim_le
claim_le-total rs a b = elim (text_leb-total a.id b.id) [
  | inl h ↦ ground (arith, h)
  | inr h ↦ ground (arith, h)
]

claim_le_trans :
    (rs : List Run) (a b c : Run)
    → claim_le rs a b ≡ true
    → claim_le rs b c ≡ true
    → claim_le rs a c ≡ true
unfolding claim_le
claim_le_trans rs a b c h k = ground (arith, text_leb_trans a.id b.id c.id)

-- The Run that a claim picks: it waits for this Bot, and comes before all others that do.
abbrev pub IsNext : Work → Text → Run → Type 0
IsNext w bot_id old =
    (claimable w bot_id old ≡ true)
    × (find_row run_key old.id w.st.runs ≡ some old)
    × All (λ x. claimable w bot_id x ≡ true → claim_le w.st.runs old x ≡ true) w.st.runs

module _ (process bot_id ai : Text) (now until : Time) (w : Work)
    (keyed : IsKeyed run_key w.st.runs) where
  abbrev waiting : List Run
  waiting = keep (claimable w bot_id) w.st.runs

  abbrev IsPick : Run → Type 0
  IsPick x = (claimable w bot_id x ≡ true) × (find_row run_key x.id w.st.runs ≡ some x)

  head-IsNext :
      (old : Run) (rest : List Run)
      → sort_by (claim_le w.st.runs) waiting ≡ old ∷ rest
      → IsNext w bot_id old
  head-IsNext old rest e =
      let every : All IsPick waiting =
        keep-All (claimable w bot_id) _ w.st.runs (IsKeyed-Found run_key w.st.runs keyed) in
      let picked : All IsPick (old ∷ rest) =
        subst (All IsPick) e (All-sort (claim_le w.st.runs) IsPick waiting every) in
      let before =
        sort-least (claim_le w.st.runs) (claim_le-total w.st.runs) (claim_le_trans w.st.runs) old
          rest waiting e in
      (picked.0.0, picked.0.1, keep-All_back (claimable w bot_id) _ w.st.runs before)

  claim_run_at :
      (old : Run) (rest : List Run)
      → sort_by (claim_le w.st.runs) waiting ≡ old ∷ rest
      → find_row run_key old.id w.st.runs ≡ some old
      → claim_run process bot_id ai now until w
        ≡ ok (
          claimed process ai now until old,
          set_runs (update_row run_key old.id (claimed process ai now until)) w,
        )
  unfolding claim_run change_run
  claim_run_at old rest e f = rw (e, claim_run) (rw (f, change_run) refl)

  -- When a claim returns a Run, it is one that waits for this Bot (or for nobody) in an open
  -- Project with room, and that no other transaction holds; it comes first of all such Runs in the
  -- order "Runs going in its Project, age, id"; and the claim makes that one Run, and no other,
  -- running on this worker until the lease ends. The ids of the stored Runs are distinct.
  pub claim_run_lem :
      (r : Run) (w' : Work)
      → claim_run process bot_id ai now until w ≡ ok (r, w')
      → (old : Run) × IsNext w bot_id old
        × (r ≡ claimed process ai now until old)
        × (w' ≡ set_runs (update_row run_key old.id (claimed process ai now until)) w)
  unfolding claim_run change_run
  claim_run_lem r w' h = elim (List-cases (sort_by (claim_le w.st.runs) waiting)) [
    | inl e ↦ cc
    | inr (old, rest, e) ↦
        let next = head-IsNext old rest e in
        let same = ok_inj (sym (claim_run_at old rest e next.1) ∙ h) in
        (old, next, ap (λ p. p.0) (sym same), ap (λ p. p.1) (sym same))
  ]

  -- When a claim finds nothing, no stored Run can be claimed. The ids of the stored Runs are
  -- distinct.
  pub claim_run-none :
      claim_run process bot_id ai now until w ≡ err not_found
      → All (λ x. claimable w bot_id x ≡ true → ⊥) w.st.runs
  unfolding claim_run
  claim_run-none h = elim (List-cases (sort_by (claim_le w.st.runs) waiting)) [
    | inl e ↦
        let empty =
          sort-none (claim_le w.st.runs) (claim_le-total w.st.runs) (claim_le_trans w.st.runs)
            waiting e in
        keep-All_back (claimable w bot_id) (λ x. ⊥) w.st.runs (subst (All (λ x. ⊥)) (sym empty) tt)
    | inr (old, rest, e) ↦ cc (h, claim_run_at old rest e (head-IsNext old rest e).1)
  ]

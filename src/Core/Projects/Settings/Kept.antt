-- ===== src/Core/Projects/Settings/Kept.antt =====
-- internal/core/projects.go: the settings that UpdateProject lets through, for which a Project's
-- workers run git and docker.
use buildbee.Base.{
  ◌≡◌, ◌≤◌, refl, sym, ap, ◌∙◌, subst, Bool, true, false, not, ◌&&◌, ◌||◌, Option, none, some, [],
  ◌∷◌, arith, is_empty, Bool-cases, inl, inr, ltb,
}
use buildbee.Base.Result.{ok, ok_inj, conflict, and_then_ok}
use buildbee.Text.{Text, bytes, text_eq, has_prefix, check_text, trim_space, to_lower}
use buildbee.Text.Sanitize.{contains}
use buildbee.Text.Regex.{matches, matches-first}
use buildbee.Text.Urls.{valid_repo_url, unsafe_for_git, image_ref, image_rest, name_start}
use buildbee.Models.Records.{Time, Project}
use buildbee.Models.Members.{is_nil}
use buildbee.Store.{Work, pure}
use buildbee.Store.Rows.{find_row}
use buildbee.Store.Runs.{project_key}
use buildbee.Store.Tables.{get_project}
use buildbee.Store.Keeps.{returned, bind_ok, refuse_ok}
use buildbee.Store.Keeps.Steps.{passed, found_row, same_row, asked, with_result_lem}
use buildbee.Core.Work.{Actor, is_direct}
use buildbee.Core.Projects.Settings.{
  ℤ, pos, negsuc, ProjectPatch, Changed, set_name, set_auto_run, set_merge_policy, set_max_runs,
  set_instructions, set_repo_url, set_default_branch, set_agent_image, set_agent_permissions,
  patched, archived_as, stays_archived, edit_project,
}

-- No address or image that a command could read as an option or a remote helper, a limit of at most
-- 1000 Runs, and permissions that are automatic or asked for.
abbrev pub IsSafe : Project → Type 0
IsSafe p =
    (p.max_runs ≤ 1000)
    × (has_prefix p.repo_url (bytes "-") ≡ false)
    × (contains p.repo_url (bytes "::") ≡ false)
    × (has_prefix p.agent_image (bytes "-") ≡ false)
    × ((text_eq p.agent_permissions (bytes "auto") || text_eq p.agent_permissions (bytes "ask"))
        ≡ true)

repo_safe :
    (u : Text)
    → (not (is_empty u) && not (valid_repo_url u)) ≡ false
    → (has_prefix u (bytes "-") ≡ false) × (contains u (bytes "::") ≡ false)
unfolding valid_repo_url unsafe_for_git has_prefix contains
repo_safe [] h = (refl, refl)
repo_safe (c ∷ s) h = elim (Bool-cases (unsafe_for_git (c ∷ s))) [
  | inl y ↦ ground (arith, rw y at h)
  | inr n ↦ (ground (arith, n), ground (arith, n))
]

image_safe :
    (s : Text)
    → (not (is_empty s) && not (matches image_ref s)) ≡ false
    → has_prefix s (bytes "-") ≡ false
unfolding has_prefix
image_safe [] h = refl
image_safe (c ∷ s) h = elim (Bool-cases (matches image_ref (c ∷ s))) [
  | inl y ↦ ground (arith, matches-first name_start image_rest c s y)
  | inr n ↦ ground (arith, rw n at h)
]

set_name-IsSafe : (o : Option Text) (x y : Changed) → IsSafe x.0 → set_name o x ≡ ok y → IsSafe y.0
set_name-IsSafe none x y safe h = subst (λ z. IsSafe z.0) (ok_inj h) safe
set_name-IsSafe (some s) x y safe h =
    let (n, hn, h1) = and_then_ok (check_text s true 100) _ y h in
    subst (λ z. IsSafe z.0) (ok_inj h1) safe

set_max_runs-IsSafe :
    (o : Option ℤ) (x y : Changed) → IsSafe x.0 → set_max_runs o x ≡ ok y → IsSafe y.0
set_max_runs-IsSafe none x y safe h = subst (λ z. IsSafe z.0) (ok_inj h) safe
set_max_runs-IsSafe (some (negsuc n)) x y safe h = cc
set_max_runs-IsSafe (some (pos n)) x y safe h = elim (Bool-cases (ltb 1000 n)) [
  | inl e ↦ cc
  | inr e ↦
      subst (λ z. IsSafe z.0) (ok_inj (rw e at h))
        (ground (arith, e), safe.1, safe.2, safe.3, safe.4)
]

set_repo_url-IsSafe :
    (o : Option Text) (x y : Changed) → IsSafe x.0 → set_repo_url o x ≡ ok y → IsSafe y.0
set_repo_url-IsSafe none x y safe h = subst (λ z. IsSafe z.0) (ok_inj h) safe
set_repo_url-IsSafe (some s) x y safe h =
    let (u, hu, h1) = and_then_ok (check_text s false 500) _ y h in
    elim (Bool-cases (not (is_empty u) && not (valid_repo_url u))) [
      | inl e ↦ cc
      | inr e ↦
          let (a, b) = repo_safe u e in
          subst (λ z. IsSafe z.0) (ok_inj (rw e at h1)) (safe.0, a, b, safe.3, safe.4)
    ]

set_auto_run-IsSafe :
    (o : Option Bool) (x y : Changed) → IsSafe x.0 → set_auto_run o x ≡ ok y → IsSafe y.0
set_auto_run-IsSafe none x y safe h = subst (λ z. IsSafe z.0) (ok_inj h) safe
set_auto_run-IsSafe (some b) x y safe h = subst (λ z. IsSafe z.0) (ok_inj h) safe

set_merge_policy-IsSafe :
    (o : Option Text) (x y : Changed) → IsSafe x.0 → set_merge_policy o x ≡ ok y → IsSafe y.0
set_merge_policy-IsSafe none x y safe h = subst (λ z. IsSafe z.0) (ok_inj h) safe
set_merge_policy-IsSafe (some s) x y safe h =
    elim (Bool-cases (text_eq (to_lower (trim_space s)) (bytes "auto"))) [
      | inl e ↦ subst (λ z. IsSafe z.0) (ok_inj (rw e at h)) safe
      | inr e ↦ elim (Bool-cases (text_eq (to_lower (trim_space s)) (bytes "approval"))) [
        | inl f ↦ subst (λ z. IsSafe z.0) (ok_inj (rw (e, f) at h)) safe
        | inr f ↦ cc
      ]
    ]

set_instructions-IsSafe :
    (o : Option Text) (x y : Changed) → IsSafe x.0 → set_instructions o x ≡ ok y → IsSafe y.0
set_instructions-IsSafe none x y safe h = subst (λ z. IsSafe z.0) (ok_inj h) safe
set_instructions-IsSafe (some s) x y safe h =
    let (n, hn, h1) = and_then_ok (check_text s false 16000) _ y h in
    subst (λ z. IsSafe z.0) (ok_inj h1) safe

set_default_branch-IsSafe :
    (o : Option Text) (x y : Changed) → IsSafe x.0 → set_default_branch o x ≡ ok y → IsSafe y.0
set_default_branch-IsSafe none x y safe h = subst (λ z. IsSafe z.0) (ok_inj h) safe
set_default_branch-IsSafe (some s) x y safe h =
    let (n, hn, h1) = and_then_ok (check_text s false 200) _ y h in
    subst (λ z. IsSafe z.0) (ok_inj h1) safe

set_agent_image-IsSafe :
    (o : Option Text) (x y : Changed) → IsSafe x.0 → set_agent_image o x ≡ ok y → IsSafe y.0
set_agent_image-IsSafe none x y safe h = subst (λ z. IsSafe z.0) (ok_inj h) safe
set_agent_image-IsSafe (some s) x y safe h =
    let u = trim_space s in
    elim (Bool-cases (not (is_empty u) && not (matches image_ref u))) [
      | inl e ↦ cc
      | inr e ↦
          subst (λ z. IsSafe z.0) (ok_inj (rw e at h))
            (safe.0, safe.1, safe.2, image_safe u e, safe.4)
    ]

set_agent_permissions-IsSafe :
    (o : Option Text) (x y : Changed) → IsSafe x.0 → set_agent_permissions o x ≡ ok y → IsSafe y.0
set_agent_permissions-IsSafe none x y safe h = subst (λ z. IsSafe z.0) (ok_inj h) safe
set_agent_permissions-IsSafe (some s) x y safe h =
    let v = to_lower (trim_space s) in
    elim (Bool-cases (not (text_eq v (bytes "auto")) && not (text_eq v (bytes "ask")))) [
      | inl e ↦ cc
      | inr e ↦
          subst (λ z. IsSafe z.0) (ok_inj (rw e at h))
            (safe.0, safe.1, safe.2, safe.3, ground (arith, e))
    ]

-- The changes one after another.
pub patched-IsSafe :
    (p : Project) (patch : ProjectPatch) (y : Changed)
    → IsSafe p
    → patched p patch ≡ ok y
    → IsSafe y.0
unfolding patched
patched-IsSafe p patch y safe h =
    let (x8, h8, e9) = and_then_ok _ _ y h in
    let (x7, h7, e8) = and_then_ok _ _ x8 h8 in
    let (x6, h6, e7) = and_then_ok _ _ x7 h7 in
    let (x5, h5, e6) = and_then_ok _ _ x6 h6 in
    let (x4, h4, e5) = and_then_ok _ _ x5 h5 in
    let (x3, h3, e4) = and_then_ok _ _ x4 h4 in
    let (x2, h2, e3) = and_then_ok _ _ x3 h3 in
    let (x1, e1, e2) = and_then_ok _ _ x2 h2 in
    set_agent_permissions-IsSafe patch.agent_permissions x8 y
      (set_agent_image-IsSafe patch.agent_image x7 x8
        (set_default_branch-IsSafe patch.default_branch x6 x7
          (set_repo_url-IsSafe patch.repo_url x5 x6
            (set_instructions-IsSafe patch.instructions x4 x5
              (set_max_runs-IsSafe patch.max_runs x3 x4
                (set_merge_policy-IsSafe patch.merge_policy x2 x3
                  (set_auto_run-IsSafe patch.auto_run x1 x2
                    (set_name-IsSafe patch.name (p, []) x1 safe e1) e2)
                  e3)
                e4)
              e5)
            e6)
          e7)
        e8)
      e9

archived_as-IsSafe :
    (now : Time) (p : Project) (o : Option Bool) → IsSafe p → IsSafe (archived_as now p o).0
archived_as-IsSafe now p none safe = safe
archived_as-IsSafe now p (some b) safe = elim (Bool-cases (b && is_nil p.archived_at)) [
  | inl e ↦ rw e safe
  | inr e ↦ elim (Bool-cases (not b && not (is_nil p.archived_at))) [
    | inl f ↦ rw (e, f) safe
    | inr f ↦ rw (e, f) safe
  ]
]

-- UpdateProject of a Project with safe settings returns one with safe settings, whatever the patch
-- asks for: a limit of at most 1000 Runs, a repository address that git reads neither as an option
-- nor as a remote helper, an image that docker does not read as an option, and permissions that are
-- automatic or asked for. It is refused in the direct space, and so is a patch that leaves an
-- archived Project archived.
pub edit_project-IsSafe :
    (a : Actor) (id : Text) (patch : ProjectPatch) (p q : Project) (w w' : Work)
    → find_row project_key id w.st.projects ≡ some p
    → IsSafe p
    → edit_project a id patch w ≡ returned q w'
    → (is_direct p.kind ≡ false)
      × ((not (is_nil p.archived_at) && stays_archived patch.archived) ≡ false)
      × IsSafe q
unfolding edit_project get_project pure
edit_project-IsSafe a id patch p q w w' stored safe h =
    let (x, e, h1) =
      found_row (get_project id) (find_row project_key id w.st.projects) _ w w' q refl h in
    let same : x ≡ p = same_row _ _ (sym e ∙ stored) in
    let (m, hm, h2) = bind_ok _ _ w w' q h1 in
    let (g, hg, h3) = bind_ok _ _ w m.1 m.0 hm in
    let (direct, h4) = passed (is_direct x.kind) conflict _ w g.1 g.0 hg in
    let (held, s) =
      refuse_ok (not (is_nil x.archived_at) && stays_archived patch.archived) _ w g.1 g.0 h4 in
    let (c, hc, h5) = bind_ok _ _ m.1 w' q h2 in
    let (y, s2) = with_result_lem (patched x patch) m.1 c.1 c.0 hc in
    let h6 = asked (λ v. v.now) _ c.1 w' q h5 in
    let (z, hz, h7) = bind_ok _ _ c.1 w' q h6 in
    (
      subst (λ v. is_direct v.kind ≡ false) same direct,
      subst (λ v. (not (is_nil v.archived_at) && stays_archived patch.archived) ≡ false) same held,
      subst IsSafe (ap (λ v. v.0) (ok_inj h7)) (
          archived_as-IsSafe c.1.now c.0.0 patch.archived
            (patched-IsSafe x patch c.0 (subst IsSafe (sym same) safe) y)),
    )

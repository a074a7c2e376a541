-- ===== src/V1/Projects/Reads.antt =====
-- services/api/internal/v1/projects.go: listProjects and getProject.
use Prim.Native.String.{compare}
use Prim.Native.Nat.{Ordering}
use cofound.Prelude.{
  ℕ, String, Bool, ◌&&◌, none, some, List, [], ◌∷◌, ltb, ◌==◌, is_none, find, if◌then◌else◌,
}
use cofound.Errs.Types.{typed}
use cofound.Errs.Outcome.{ok}
use cofound.Errs.Build.{not_found}
use cofound.Tenancy.Directory.{Membership}
use cofound.Db.Scope.{Settings, Conn, Ran, returned, panicked, Plain}
use cofound.Db.Scope as Scope
use cofound.V1.Projects.Store.{
  ProjectRow, Branch, Tables, select_projects, select_project, select_branches, Refuses, refusal,
  fails, scoped, in_scope,
}
use cofound.V1.Projects.Create.{Shown}

-- The rows that a policy shows, that are not archived, the newest first.
unfoldable pub is_listed : (ℕ → String) → Settings → ProjectRow → Bool
unfolding in_scope
is_listed text_of s p = in_scope text_of s p.org_id && is_none p.archived_at

unfoldable pub place_newest : ProjectRow → List ProjectRow → List ProjectRow
place_newest p [] = p ∷ []
place_newest p (q ∷ qs) =
    let later = q ∷ place_newest p qs in if ltb p.created_at q.created_at then later else p ∷ q ∷ qs

unfoldable pub listed : (ℕ → String) → Settings → List ProjectRow → List ProjectRow
unfolding is_listed place_newest
listed text_of s [] = []
listed text_of s (p ∷ ps) =
    let rest = listed text_of s ps in if is_listed text_of s p then place_newest p rest else rest

-- The project of an id, archived or not, as the policy shows it; and its branches.
unfoldable pub is_shown : (ℕ → String) → Settings → ℕ → ProjectRow → Bool
unfolding in_scope
is_shown text_of s i p = p.id == i && in_scope text_of s p.org_id

unfoldable pub place_branch : Branch → List Branch → List Branch
place_branch b [] = b ∷ []
place_branch b (x ∷ xs) =
    let later = x ∷ place_branch b xs in
    elim (compare b.name x.name) [ Ordering.gt ↦ later | _ ↦ b ∷ x ∷ xs ]

unfoldable pub branches_of : (ℕ → String) → Settings → ℕ → List Branch → List Branch
unfolding in_scope place_branch
branches_of text_of s i [] = []
branches_of text_of s i (b ∷ bs) =
    let rest = branches_of text_of s i bs in
    if b.project_id == i && in_scope text_of s b.org_id then place_branch b rest else rest

module _ (bad : Refuses) (text_of : ℕ → String) where
  -- listProjects
  unfoldable pub list_tx : Plain Tables (List ProjectRow)
  unfolding listed
  list_tx s w =
      if bad select_projects
      then fails w (refusal "select projects")
      else (w, returned (ok (listed text_of s w.projects)))

  unfoldable pub list_projects :
      Scope.Refuses → Membership → Conn Tables → Conn Tables × Ran (List ProjectRow)
  unfolding scoped list_tx
  list_projects tx_bad m c = scoped tx_bad text_of m list_tx c

  -- The transaction of getProject.
  unfoldable pub get_tx : Membership → Plain Tables Shown
  unfolding is_shown branches_of find
  get_tx m s w =
      if bad select_project
      then fails w (refusal "select project")
      else elim (find (is_shown text_of s m.project_id) w.projects) [
        | none ↦ fails w (typed (not_found "project" ""))
        | some p ↦
            if bad select_branches
            then fails w (refusal "select branches")
            else (w, returned (ok (p, branches_of text_of s m.project_id w.branches)))
      ]

  -- getProject
  unfoldable pub get_project : Scope.Refuses → Membership → Conn Tables → Conn Tables × Ran Shown
  unfolding scoped get_tx
  get_project tx_bad m c = scoped tx_bad text_of m (get_tx m) c

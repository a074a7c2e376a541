-- ===== src/V1/Projects/Archive.antt =====
-- services/api/internal/v1/projects.go: archiveProject.

use cofound.Prelude.{ℕ, String, Bool, ◌&&◌, none, some, ◌==◌, is_none, find, update, if◌then◌else◌}
use cofound.Errs.Outcome.{ok}
use cofound.Tenancy.Directory.{Membership}
use cofound.Db.Scope.{Settings, Conn, Ran, returned, panicked, Plain}
use cofound.Db.Scope as Scope
use cofound.V1.Projects.Store.{
  ProjectRow, project_archive, Tables, archive_project, Refuses, refusal, fails, then_do, scoped,
  in_scope, record_event,
}

-- The live project of an id, as the policy shows it.
unfoldable pub is_live : (ℕ → String) → Settings → ℕ → ProjectRow → Bool
unfolding in_scope
is_live text_of s i p = p.id == i && in_scope text_of s p.org_id && is_none p.archived_at

unfoldable pub archived_row : ℕ → ProjectRow → ProjectRow
archived_row now p = record p { archived_at = some now }

module _ (bad : Refuses) (text_of : ℕ → String) where
  -- The transaction of archiveProject.
  unfoldable pub archive_tx : Membership → ℕ → Plain Tables (Unit {0})
  unfolding is_live archived_row then_do record_event find update
  archive_tx m now s w =
      if bad archive_project
      then fails w (refusal "archive project")
      else elim (find (is_live text_of s m.project_id) w.projects) [
        | none ↦ (w, returned (ok tt))
        | some p ↦
            then_do
              (record_event bad text_of s m.org_id m.user_id (project_archive m.project_id p.slug)
                (record w {
                  projects = update (is_live text_of s m.project_id) (archived_row now) w.projects;
                }))
              (λ u v. (v, returned (ok tt)))
      ]

  -- archiveProject
  unfoldable pub archive :
      Scope.Refuses → Membership → ℕ → Conn Tables → Conn Tables × Ran (Unit {0})
  unfolding scoped archive_tx
  archive tx_bad m now c = scoped tx_bad text_of m (archive_tx m now) c

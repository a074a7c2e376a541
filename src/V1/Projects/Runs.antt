-- ===== src/V1/Projects/Runs.antt =====
-- services/api/internal/v1/projects.go: calls of createProject and archiveProject, one after another.
use cofound.Prelude.{ℕ, String, ◌≡◌, Option, List, [], ◌∷◌, inl, inr, In, sym, subst}
use cofound.Tenancy.Directory.{Membership}
use cofound.Db.Scope.{Settings, Conn, Ran, returned}
use cofound.Db.Confined.{local_settings}
use cofound.Db.Scope as Scope
use cofound.V1.Projects.Store.{Tables, Refuses}
use cofound.V1.Projects.Create.{CreateBody, create_project}
use cofound.V1.Projects.Archive.{archive, archive_tx}
use cofound.V1.Projects.Created.{Creates, create_project-Creates}
use cofound.V1.Projects.Settled.{scoped-Settles}
use cofound.V1.Projects.Whole.{IsWhole, with_project-IsWhole}
use cofound.V1.Projects.Archived.{archive_tx-IsWhole}

-- A call of a handler, with the statements that fail during it, the caller, and the clock.
pub data Call : Type 0 where
  creates : Refuses → Scope.Refuses → (String → Option ℕ) → Membership → CreateBody → ℕ → Call
  archives : Refuses → Scope.Refuses → Membership → ℕ → Call

module _ (text_of : ℕ → String) where
  unfoldable pub called : Call → Conn Tables → Conn Tables
  unfolding create_project archive
  called (creates bad tx_bad parse m b now) c =
      (create_project bad text_of tx_bad parse m b now c).0
  called (archives bad tx_bad m now) c = (archive bad text_of tx_bad m now c).0

  unfoldable pub called_all : List Call → Conn Tables → Conn Tables
  unfolding called
  called_all [] c = c
  called_all (x ∷ xs) c = called_all xs (called x c)

  called-IsWhole : (x : Call) (c : Conn Tables) → IsWhole c.rows → IsWhole (called x c).rows
  unfolding called Creates archive
  called-IsWhole (creates bad tx_bad parse m b now) c inv =
      elim (create_project-Creates bad text_of tx_bad parse m b now c) [
        | inl (same, none_given) ↦ subst (λ (d : Conn Tables). IsWhole d.rows) (sym same) inv
        | inr (k, judged, own, valid, free, is, shown) ↦
            subst (λ (d : Conn Tables). IsWhole d.rows) (sym is)
              (with_project-IsWhole m k now c.rows inv free)
      ]
  called-IsWhole (archives bad tx_bad m now) c inv =
      elim (scoped-Settles tx_bad text_of m (archive_tx bad text_of m now) c) [
        | inl (same, none_given) ↦ subst (λ (d : Conn Tables). IsWhole d.rows) (sym same) inv
        | inr (a, d, ran, is) ↦
            subst (λ (x : Conn Tables × Ran (Unit {0})). IsWhole x.0.rows) (sym is)
              (archive_tx-IsWhole bad text_of
                (local_settings (record { org_id = text_of m.org_id; user_id = text_of m.user_id })
                  c.settings)
                m now c.rows d inv ran)
      ]

  called_all-kept :
      (xs : List Call) (c : Conn Tables) → IsWhole c.rows → IsWhole (called_all xs c).rows
  unfolding called_all
  called_all-kept [] c inv = inv
  called_all-kept (x ∷ xs) c inv = called_all-kept xs (called x c) (called-IsWhole x c inv)

  -- After any sequence of calls of createProject and archiveProject, by any callers with any bodies
  -- and whichever statements fail in each, on a database that held no project: every project has an
  -- id that was given out, a branch in its own org under its default name, and a slug that no other
  -- project of its org has.
  pub called_all-IsWhole :
      (xs : List Call) (c : Conn Tables) → c.rows.projects ≡ [] → IsWhole (called_all xs c).rows
  called_all-IsWhole xs c e = called_all-kept xs c (record {
    fresh = λ p i. absurd (subst (In p) e i);
    branched = λ p i. absurd (subst (In p) e i);
    unique = λ p q i j org slug. absurd (subst (In p) e i);
  })

-- ===== src/V1/Projects/Archived.antt =====
-- services/api/internal/v1/projects.go: archiveProject keeps what holds between calls.
use cofound.Prelude.{
  ℕ, String, ◌≡◌, and_last, arith, inl, inr, find, update, In-update, Option-cases, Bool-cases, ap,
  sym, subst, ◌∙◌, if◌then◌else◌, ◌||◌, not,
}
use cofound.Errs.Outcome.{ok}
use cofound.Tenancy.Directory.{Membership}
use cofound.Db.Scope.{Settings, Ran, returned}
use cofound.V1.Projects.Store.{
  ProjectRow, Tables, Refuses, then_do, record_event, Event, record_audit, archive_project,
  project_archive, in_scope,
}
use cofound.V1.Projects.Archive.{archive_tx, is_live, archived_row}
use cofound.V1.Projects.Settled.{then_do-ok}
use cofound.V1.Projects.Whole.{IsWhole}

-- What archiveProject writes for a project that it finds.
abbrev with_archived : (ℕ → String) → Settings → Membership → ℕ → ProjectRow → Tables → Tables
with_archived text_of s m now p w = record w {
  projects = update (is_live text_of s m.project_id) (archived_row now) w.projects;
  log = and_last w.log (record {
    org_id = m.org_id;
    actor = m.user_id;
    event = project_archive m.project_id p.slug;
  });
}

archived_row-same :
    (text_of : ℕ → String) (s : Settings) (i now : ℕ) (x y : ProjectRow)
    → y ≡ (if is_live text_of s i x then archived_row now x else x)
    → (y.id ≡ x.id)
      × (y.org_id ≡ x.org_id)
      × (y.slug ≡ x.slug)
      × (y.default_branch ≡ x.default_branch)
unfolding archived_row
archived_row-same text_of s i now x y e = elim (Bool-cases (is_live text_of s i x)) [
  | inl b ↦ ground arith
  | inr b ↦ ground arith
]

with_archived-IsWhole :
    (text_of : ℕ → String) (s : Settings) (m : Membership) (now : ℕ) (p : ProjectRow) (w : Tables)
    → IsWhole w
    → IsWhole (with_archived text_of s m now p w)
with_archived-IsWhole text_of s m now p w inv =
    let live = is_live text_of s m.project_id in
    let before = In-update live (archived_row now) in
    let same = archived_row-same text_of s m.project_id now in
    record {
      fresh = λ q i.
          let (x, ix, e) = before q w.projects i in ground (arith, inv.fresh x ix, same x q e);
      branched = λ q i.
          let (x, ix, e) = before q w.projects i in
          let (b, ib, own, org, name) = inv.branched x ix in
          let (id, org_id, slug, branch) = same x q e in
          (b, ib, own ∙ sym id, org ∙ sym org_id, name ∙ sym branch);
      unique = λ q r i j org slug.
          let (x, ix, e) = before q w.projects i in
          let (y, iy, d) = before r w.projects j in
          ground (arith, same x q e, same y r d, inv.unique x y ix iy);
    }

module _ (bad : Refuses) (text_of : ℕ → String) (s : Settings) where
  record_event-ok :
      (org actor : ℕ) (e : Event) (w : Tables) (u : Unit {0})
      → (record_event bad text_of s org actor e w).1 ≡ ok u
      → (record_event bad text_of s org actor e w).0
        ≡ record w { log = and_last w.log (record { org_id = org; actor = actor; event = e }) }
  unfolding record_event
  record_event-ok org actor e w u h =
      elim (Bool-cases (bad record_audit || not (in_scope text_of s org))) [
        | inl f ↦ absurd (ground arith)
        | inr f ↦ ground arith
      ]

  archive_found :
      (m : Membership) (now : ℕ) (p : ProjectRow) (w d : Tables)
      → then_do
          (record_event bad text_of s m.org_id m.user_id
            (project_archive m.project_id p.slug)
            (record w {
              projects = update (is_live text_of s m.project_id) (archived_row now) w.projects;
            }))
          (λ (u : Unit {0}) (v : Tables). (v, returned (ok tt)))
        ≡ (d, returned (ok tt))
      → d ≡ with_archived text_of s m now p w
  archive_found m now p w d e =
      let v = record w {
        projects = update (is_live text_of s m.project_id) (archived_row now) w.projects;
      } in
      let (u, done, e') =
        then_do-ok
          (record_event bad text_of s m.org_id m.user_id (project_archive m.project_id p.slug) v)
          (λ (u : Unit {0}) (v : Tables). (v, returned (ok tt))) d tt e in
      ap (λ (x : Tables × Ran (Unit {0})). x.0) (sym e')
      ∙ record_event-ok m.org_id m.user_id (project_archive m.project_id p.slug) v u done

  pub archive_tx-IsWhole :
      (m : Membership) (now : ℕ) (w d : Tables)
      → IsWhole w
      → archive_tx bad text_of m now s w ≡ (d, returned (ok tt))
      → IsWhole d
  unfolding archive_tx
  archive_tx-IsWhole m now w d inv e = elim (Bool-cases (bad archive_project)) [
    | inl f ↦ absurd (ground arith)
    | inr f ↦ elim (Option-cases (find (is_live text_of s m.project_id) w.projects)) [
      | inl n ↦
          subst IsWhole (ap (λ (x : Tables × Ran (Unit {0})). x.0) (rw (f, n, archive_tx) at e)) inv
      | inr (p, g) ↦
          subst IsWhole (sym (archive_found m now p w d (rw (f, g, archive_tx) at e)))
            (with_archived-IsWhole text_of s m now p w inv)
    ]
  ]

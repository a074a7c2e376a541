-- ===== src/V1/Projects/Steps.antt =====
-- services/api/internal/v1/projects.go: what the transaction of createProject writes.
use cofound.Prelude.{
  ℕ, ◌+◌, String, ◌≡◌, refl, Option, none, some, List, [], ◌∷◌, and_last, arith, inl, inr, find,
  Option-cases, Bool-cases, ap, sym, ◌∙◌, not, ◌||◌,
}
use cofound.Errs.Outcome.{ok}
use cofound.Tenancy.Directory.{Membership}
use cofound.Db.Scope.{Settings, returned}
use cofound.V1.Projects.Store.{
  ProjectRow, Branch, Audited, project_create, Tables, Refuses, then_do, record_audit, in_scope,
  record_event, same_name, insert_project_row, same_branch, insert_branch_row, new_project,
  new_branch,
}
use cofound.V1.Projects.Create.{
  Wanted, Shown, check_template, create_audit, create_branch, create_row, create_tx,
}
use cofound.V1.Projects.Settled.{then_do-ok}

-- The rows that a project starts with.
abbrev pub first_project : Membership → Wanted → ℕ → Tables → ProjectRow
first_project m k now w = new_project m.org_id k.name k.slug k.template now w.next_id

abbrev pub first_branch : Membership → Tables → Branch
first_branch m w = new_branch w.next_id m.org_id "main" (w.next_id + 1)

abbrev pub created : Membership → ProjectRow → Audited
created m p = record {
  org_id = m.org_id;
  actor = m.user_id;
  event = project_create p.id p.slug p.name;
}

-- The tables with the project, its default branch and the event.
abbrev pub with_project : Membership → Wanted → ℕ → Tables → Tables
with_project m k now w = record w {
  projects = and_last w.projects (first_project m k now w);
  branches = and_last w.branches (first_branch m w);
  log = and_last w.log (created m (first_project m k now w));
  next_id = w.next_id + 1 + 1;
}

module _ (bad : Refuses) (text_of : ℕ → String) (s : Settings) where
  check_template-ok :
      (o : Option ℕ) (w : Tables) (u : Unit {0})
      → (check_template bad text_of o w).1 ≡ ok u
      → (check_template bad text_of o w).0 ≡ w
  unfolding check_template
  check_template-ok none w u e = refl
  check_template-ok (some i) w u e = ground arith

  insert_project_row-ok :
      (org : ℕ) (name : String) (slug : List ℕ) (t : Option ℕ) (now : ℕ) (w : Tables)
      (p : ProjectRow)
      → (insert_project_row bad text_of s org name slug t now w).1 ≡ ok p
      → (p ≡ new_project org name slug t now w.next_id)
        × ((insert_project_row bad text_of s org name slug t now w).0
            ≡ record w { projects = and_last w.projects p; next_id = w.next_id + 1 })
        × (find (same_name org slug) w.projects ≡ none)
  unfolding insert_project_row
  insert_project_row-ok org name slug t now w p e =
      elim (Option-cases (find (same_name org slug) w.projects)) [
        | inl n ↦ (ground (arith), ground (arith), n)
        | inr (q, f) ↦ absurd (ground arith)
      ]

  insert_branch_row-ok :
      (project org : ℕ) (name : String) (w : Tables) (b : Branch)
      → (insert_branch_row bad text_of s project org name w).1 ≡ ok b
      → (b ≡ new_branch project org name w.next_id)
        × ((insert_branch_row bad text_of s project org name w).0
            ≡ record w { branches = and_last w.branches b; next_id = w.next_id + 1 })
  unfolding insert_branch_row
  insert_branch_row-ok project org name w b e =
      elim (Option-cases (find (same_branch project name) w.branches)) [
        | inl n ↦ (ground (arith), ground (arith))
        | inr (q, f) ↦ absurd (ground arith)
      ]

  create_audit-ok :
      (m : Membership) (p : ProjectRow) (b : Branch) (w v : Tables) (out : Shown)
      → create_audit bad text_of m p s b w ≡ (v, returned (ok out))
      → (v ≡ record w { log = and_last w.log (created m p) }) × (out ≡ (p, b ∷ []))
  unfolding create_audit then_do record_event
  create_audit-ok m p b w v out e =
      elim (Bool-cases (bad record_audit || not (in_scope text_of s m.org_id))) [
        | inl f ↦ absurd (ground arith)
        | inr f ↦ (ground (arith), ground (arith))
      ]

  create_branch-ok :
      (m : Membership) (p : ProjectRow) (w v : Tables) (out : Shown)
      → create_branch bad text_of m s p w ≡ (v, returned (ok out))
      → let b = new_branch p.id m.org_id p.default_branch w.next_id in
        (v ≡ record w {
          branches = and_last w.branches b;
          log = and_last w.log (created m p);
          next_id = w.next_id + 1;
        })
        × (out ≡ (p, b ∷ []))
  unfolding create_branch
  create_branch-ok m p w v out e =
      let x = insert_branch_row bad text_of s p.id m.org_id p.default_branch w in
      let (b, done, e') = then_do-ok x (create_audit bad text_of m p s) v out e in
      let (is, rows) = insert_branch_row-ok p.id m.org_id p.default_branch w b done in
      let (ends, shown) = create_audit-ok m p b x.0 v out e' in
      (
        ends
            ∙ ap (λ (t : Tables). record t { log = and_last t.log (created m p) })
                (rows
                  ∙ ap
                      (λ (y : Branch). record w {
                        branches = and_last w.branches y;
                        next_id = w.next_id + 1;
                      })
                      is),
        shown ∙ ap (λ (y : Branch). (p, y ∷ [])) is,
      )

  create_row-ok :
      (m : Membership) (k : Wanted) (now : ℕ) (u : Unit {0}) (w v : Tables) (out : Shown)
      → create_row bad text_of m k now s u w ≡ (v, returned (ok out))
      → (v ≡ with_project m k now w)
        × (out ≡ (first_project m k now w, first_branch m w ∷ []))
        × (find (same_name m.org_id k.slug) w.projects ≡ none)
  unfolding create_row new_project
  create_row-ok m k now u w v out e =
      let x = insert_project_row bad text_of s m.org_id k.name k.slug k.template now w in
      let (p, done, e') = then_do-ok x (create_branch bad text_of m s) v out e in
      let (is, rows, free) = insert_project_row-ok m.org_id k.name k.slug k.template now w p done in
      let (ends, shown) = create_branch-ok m p x.0 v out e' in
      let goes =
        rows
        ∙ ap
            (λ (y : ProjectRow). record w {
              projects = and_last w.projects y;
              next_id = w.next_id + 1;
            })
            is in
      (
        ends ∙ (λ i. record (goes i) {
          branches =
              and_last (goes i).branches
                (new_branch (is i).id m.org_id (is i).default_branch (goes i).next_id);
          log = and_last (goes i).log (created m (is i));
          next_id = (goes i).next_id + 1;
        }),
        shown ∙ (λ i.
            (is i, new_branch (is i).id m.org_id (is i).default_branch (goes i).next_id ∷ [])),
        free,
      )

  -- A transaction of createProject that runs to its end has added the project, its default branch
  -- and one event, under a slug that was free, and nothing else.
  pub create_tx-ok :
      (m : Membership) (k : Wanted) (now : ℕ) (w v : Tables) (out : Shown)
      → create_tx bad text_of m k now s w ≡ (v, returned (ok out))
      → (v ≡ with_project m k now w)
        × (out ≡ (first_project m k now w, first_branch m w ∷ []))
        × (find (same_name m.org_id k.slug) w.projects ≡ none)
  unfolding create_tx
  create_tx-ok m k now w v out e =
      let x = check_template bad text_of k.template w in
      let (u, checked, e') = then_do-ok x (create_row bad text_of m k now s) v out e in
      create_row-ok m k now u w v out (
        ap (create_row bad text_of m k now s u) (sym (check_template-ok k.template w u checked))
        ∙ e')

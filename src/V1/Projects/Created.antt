-- ===== src/V1/Projects/Created.antt =====
-- services/api/internal/v1/projects.go: what createProject leaves behind.
use cofound.Prelude.{
  ℕ, String, ◌≡◌, ◌≢◌, ◌⊎◌, refl, true, Option, none, some, [], ◌∷◌, arith, inl, inr, find, ap, ◌∙◌,
}
use cofound.Errs.Outcome.{ok, err, Outcome-cases}
use cofound.V1.Slugs.{valid_slug}
use cofound.Tenancy.Directory.{Membership}
use cofound.Db.Scope.{
  Principal, Settings, Conn, Ran, returned, panicked, Plain, scope_as, scope_org_and_user,
}
use cofound.Db.Confined.{local_settings}
use cofound.Db.Scope as Scope
use cofound.V1.Projects.Store.{Tables, Refuses, scoped, same_name}
use cofound.V1.Projects.Create.{
  CreateBody, Wanted, Shown, judge_create, create_tx, answer_create, create_project,
}
use cofound.V1.Projects.Settled.{Settles, scoped-Settles}
use cofound.V1.Projects.Steps.{first_project, first_branch, with_project, create_tx-ok}
use cofound.V1.Projects.Judged.{judge_create-ok}

-- A call of createProject changes nothing and gives no project, or it has done the whole of its work.
unfoldable pub Creates :
    (String → Option ℕ)
    → Membership
    → CreateBody
    → ℕ
    → Conn Tables
    → Conn Tables × Ran Shown
    → Type 0
Creates parse m b now c x =
    ((x.0 ≡ c) × ((a : Shown) → x.1 ≢ returned (ok a)))
    ⊎ ((k : Wanted) × (judge_create parse m b ≡ ok k)
        × (parse b.org_id ≡ some m.org_id)
        × (valid_slug k.slug ≡ true)
        × (find (same_name m.org_id k.slug) c.rows.projects ≡ none)
        × (x.0 ≡ record c { rows = with_project m k now c.rows })
        × (x.1 ≡ returned (ok (first_project m k now c.rows, first_branch m c.rows ∷ []))))

module _ (bad : Refuses) (text_of : ℕ → String) where
  answer_create-none :
      (x : Conn Tables × Ran Shown)
      → ((a : Shown) → x.1 ≢ returned (ok a))
      → (a : Shown) → (answer_create x).1 ≢ returned (ok a)
  unfolding answer_create
  answer_create-none (c, panicked) h a e = absurd (ground arith)
  answer_create-none (c, returned (ok b)) h a e = absurd (h b refl)
  answer_create-none (c, returned (err x)) h a e = absurd (ground arith)

  answer_create-conn : (x : Conn Tables × Ran Shown) → (answer_create x).0 ≡ x.0
  unfolding answer_create
  answer_create-conn (c, panicked) = refl
  answer_create-conn (c, returned (ok b)) = refl
  answer_create-conn (c, returned (err x)) = refl

  -- createProject, for any body and whichever statements fail, either leaves the database as it was
  -- and answers with no project; or the body asked for a project of the caller's org under a valid
  -- slug that was free there, and the database has gained just that project, its default branch and
  -- one audit event by the caller, and the answer is that project with that branch.
  pub create_project-Creates :
      (tx_bad : Scope.Refuses) (parse : String → Option ℕ) (m : Membership) (b : CreateBody)
      (now : ℕ) (c : Conn Tables)
      → Creates parse m b now c (create_project bad text_of tx_bad parse m b now c)
  unfolding create_project Creates answer_create
  create_project-Creates tx_bad parse m b now c = elim (Outcome-cases (judge_create parse m b)) [
    | inr (e, f) ↦ rw f (inl (refl, λ a h. absurd (ground arith)))
    | inl (k, f) ↦ rw f (elim (split k) [
      | inl (same, none_given) ↦ inl (answer_create-conn _ ∙ same, answer_create-none _ none_given)
      | inr (a, d, ran, is) ↦
          let (rows, shown, free) =
            create_tx-ok bad text_of
              (local_settings (record { org_id = text_of m.org_id; user_id = text_of m.user_id })
                c.settings)
              m k now c.rows d a ran in
          inr (
            k,
            refl,
            (judge_create-ok parse m b k f).0,
            (judge_create-ok parse m b k f).1,
            free,
            ap (λ (x : Conn Tables × Ran Shown). (answer_create x).0) is
                ∙ ap (λ (t : Tables). record c { rows = t }) rows,
            ap (λ (x : Conn Tables × Ran Shown). (answer_create x).1) is
                ∙ ap (λ (o : Shown). returned (ok o)) shown,
          )
    ])
  ]
    where
      split :
          (k : Wanted)
          → Settles text_of m
              (create_tx bad text_of m k now)
              c
              (scoped tx_bad text_of m (create_tx bad text_of m k now) c)
      split k = scoped-Settles tx_bad text_of m (create_tx bad text_of m k now) c

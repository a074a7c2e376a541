-- ===== src/V1/Projects/Settled.antt =====
-- tenancy/middleware.go: what a call of Scoped leaves behind, and a statement of its transaction.
use cofound.Prelude.{
  ℕ, String, ◌≡◌, ◌≢◌, ◌⊎◌, refl, true, false, arith, inl, inr, Bool-cases, ◌==◌, ◌=s◌,
}
use cofound.Errs.Types.{GoError}
use cofound.Errs.Outcome.{Outcome, ok, err}
use cofound.Tenancy.Directory.{Membership}
use cofound.Db.Scope.{
  Principal, Settings, Conn, Ran, returned, panicked, Plain, plain, with_org, with_user, scope_as,
  scope_org_and_user,
}
use cofound.Db.Confined.{local_settings}
use cofound.Db.Scope as Scope
use cofound.Db.Confined.{scope_as-Ends}
use cofound.V1.Projects.Store.{Tables, then_do, scoped}

pub then_do-ok :
    {W A B : Type 0}
    → (x : W × Outcome A) (f : A → W → W × Ran B) (v : W) (b : B)
    → then_do x f ≡ (v, returned (ok b))
    → (a : A) × (x.1 ≡ ok a) × (f a x.0 ≡ (v, returned (ok b)))
unfolding then_do
then_do-ok (w, err e) f v b h = absurd (ground arith)
then_do-ok (w, ok a) f v b h = (a, refl, h)

-- A scoped call leaves the connection as it was and gives no value, or its transaction has run to
-- its end, and what it wrote is kept.
abbrev pub Settles :
    {A : Type 0}
    → (ℕ → String)
    → Membership
    → Plain Tables A
    → Conn Tables
    → Conn Tables × Ran A
    → Type 0
Settles {A} text_of m fn c x =
    ((x.0 ≡ c) × ((a : A) → x.1 ≢ returned (ok a)))
    ⊎ ((a : A) × (d : Tables) × (fn
            (local_settings (record { org_id = text_of m.org_id; user_id = text_of m.user_id })
              c.settings)
            c.rows
          ≡ (d, returned (ok a)))
        × (x ≡ (record c { rows = d }, returned (ok a))))

no_value :
    {A : Type 0}
    → (r : Ran A) (a : A) → ((e : GoError) × (r ≡ returned (err e))) ⊎ (r ≡ panicked)
    → r ≢ returned (ok a)
no_value r a (inl (e, f)) h = absurd (ground arith)
no_value r a (inr f) h = absurd (ground arith)

module _ {A : Type 0} (bad : Scope.Refuses) (text_of : ℕ → String) (m : Membership)
    (fn : Plain Tables A) (c : Conn Tables) where
  scoped-scope_as :
      (m.org_id == 0) ≡ false
      → (text_of m.org_id =s "") ≡ false
      → scoped bad text_of m fn c
        ≡ scope_as bad
            (record { org_id = text_of m.org_id; user_id = text_of m.user_id })
            (plain fn)
            c
  unfolding scoped
  scoped-scope_as b d = rw (b, d) refl

  scoped-refused :
      ((m.org_id == 0) ≡ true) ⊎ ((text_of m.org_id =s "") ≡ true)
      → ((scoped bad text_of m fn c).0 ≡ c)
        × ((a : A) → (scoped bad text_of m fn c).1 ≢ returned (ok a))
  unfolding scoped
  scoped-refused (inl b) = rw b (refl, λ a e. absurd (ground arith))
  scoped-refused (inr d) = elim (Bool-cases (m.org_id == 0)) [
    | inl b ↦ rw b (refl, λ a e. absurd (ground arith))
    | inr b ↦ rw (b, d) (refl, λ a e. absurd (ground arith))
  ]

  pub scoped-Settles : Settles text_of m fn c (scoped bad text_of m fn c)
  scoped-Settles = elim (Bool-cases (m.org_id == 0)) [
    | inl b ↦ inl (scoped-refused (inl b))
    | inr b ↦ elim (Bool-cases (text_of m.org_id =s "")) [
      | inl d ↦ inl (scoped-refused (inr d))
      | inr d ↦
          rw (scoped-scope_as b d)
            (elim (scope_as-Ends bad
              (record { org_id = text_of m.org_id; user_id = text_of m.user_id }) fn c) [
                | inl (same, why) ↦ inl (same, λ a. no_value _ a why)
                | inr done ↦ inr done
              ])
    ]
  ]

module _ {A : Type 0} (bad : Scope.Refuses) (text_of : ℕ → String) (m : Membership)
    (fn : Plain Tables A) (c : Conn Tables) where
  -- A scoped call that gives a value ran with the caller's org in its settings, whatever they were.
  pub scoped-org :
      (a : A)
      → (scoped bad text_of m fn c).1 ≡ returned (ok a)
      → (local_settings
          (record { org_id = text_of m.org_id; user_id = text_of m.user_id })
          c.settings).org
        ≡ text_of m.org_id
  unfolding local_settings
  scoped-org a e = elim (Bool-cases (text_of m.org_id =s "")) [
    | inl d ↦ absurd ((scoped-refused bad text_of m fn c (inr d)).1 a e)
    | inr d ↦ rw d refl
  ]

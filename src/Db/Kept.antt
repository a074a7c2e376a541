-- ===== src/Db/Kept.antt =====
-- packages/db/scope.go: what ScopeOrgAndUser leaves behind.
use cofound.Prelude.{
  String, ◌≡◌, ◌≢◌, ◌⊎◌, refl, true, false, arith, inl, inr, Bool-cases, sym, subst, ◌=s◌,
}
use cofound.Errs.Outcome.{ok}
use cofound.Db.Scope.{
  Principal, Settings, Conn, Ran, returned, panicked, Plain, plain, scope_as, scope_org_and_user,
}
use cofound.Db.Confined.{local_settings}
use cofound.Db.Scope as Scope
use cofound.Db.Confined.{scope_as-Ends}

module _ {D A : Type 0} (tx_bad : Scope.Refuses) (org user : String) (fn : Plain D A)
    (c : Conn D) where
  -- ScopeOrgAndUser leaves the connection as it was and gives no value, or fn has run to its end.
  abbrev pub KeepsRows : Conn D × Ran A → Type 0
  KeepsRows x =
      ((x.0 ≡ c) × ((a : A) → x.1 ≢ returned (ok a)))
      ⊎ ((a : A) × (d : D) × (fn
              (local_settings (record { org_id = org; user_id = user }) c.settings) c.rows
            ≡ (d, returned (ok a)))
          × (x ≡ (record c { rows = d }, returned (ok a))))

  scope_as-keeps :
      KeepsRows (scope_as tx_bad (record { org_id = org; user_id = user }) (plain fn) c)
  scope_as-keeps = elim (scope_as-Ends tx_bad (record { org_id = org; user_id = user }) fn c) [
    | inl (same, inl (e, f)) ↦ inl (same, λ a h. absurd (ground arith))
    | inl (same, inr f) ↦ inl (same, λ a h. absurd (ground arith))
    | inr done ↦ inr done
  ]

  scope_org_and_user-scope_as :
      (org =s "") ≡ false
      → scope_org_and_user tx_bad org user (plain fn) c
        ≡ scope_as tx_bad (record { org_id = org; user_id = user }) (plain fn) c
  unfolding scope_org_and_user
  scope_org_and_user-scope_as d = rw d refl

  scope_org_and_user-refused :
      (org =s "") ≡ true → KeepsRows (scope_org_and_user tx_bad org user (plain fn) c)
  unfolding scope_org_and_user
  scope_org_and_user-refused d = rw d (inl (refl, λ a e. absurd (ground arith)))

  pub scope_org_and_user-keeps : KeepsRows (scope_org_and_user tx_bad org user (plain fn) c)
  scope_org_and_user-keeps = elim (Bool-cases (org =s "")) [
    | inl d ↦ scope_org_and_user-refused d
    | inr d ↦ subst KeepsRows (sym (scope_org_and_user-scope_as d)) scope_as-keeps
  ]

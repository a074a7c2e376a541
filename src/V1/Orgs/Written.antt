-- ===== src/V1/Orgs/Written.antt =====
-- services/api/internal/v1/orgs.go: what the transaction of createOrg writes.
use cofound.Prelude.{
  ℕ, String, ◌≡◌, none, and_last, arith, inl, inr, find, Option-cases, Bool, Bool-cases, ap, ◌∙◌,
  not, ◌||◌,
}
use cofound.Errs.Outcome.{ok}
use cofound.Tenancy.Directory.{is_member}
use cofound.Db.Scope.{Settings, returned}
use cofound.V1.Projects.Store.{then_do, in_scope}
use cofound.V1.Projects.Settled.{then_do-ok}
use cofound.V1.Orgs.{
  OrgRow, OrgTables, OrgStmt, record_created, Named, same_org, new_org, owner, org_created,
  insert_org_row, insert_owner_row, record_org, org_audit, org_owner, org_tx,
}

-- The tables with the org, its owner and the event.
abbrev pub with_org_of : Named → ℕ → ℕ → ℕ → OrgTables → OrgTables
with_org_of k org user now w = record {
  orgs = and_last w.orgs (new_org k org now);
  members = and_last w.members (owner org user);
  log = and_last w.log (org_created k org user);
}

module _ (bad : OrgStmt → Bool) (text_of : ℕ → String) (s : Settings) where
  insert_org_row-ok :
      (k : Named) (org now : ℕ) (w : OrgTables) (o : OrgRow)
      → (insert_org_row bad text_of s k org now w).1 ≡ ok o
      → (o ≡ new_org k org now)
        × ((insert_org_row bad text_of s k org now w).0
            ≡ record w { orgs = and_last w.orgs (new_org k org now) })
        × (find (same_org org k.slug) w.orgs ≡ none)
  unfolding insert_org_row
  insert_org_row-ok k org now w o e = elim (Option-cases (find (same_org org k.slug) w.orgs)) [
    | inl n ↦ (ground (arith), ground (arith), n)
    | inr (q, f) ↦ absurd (ground arith)
  ]

  insert_owner_row-ok :
      (org user : ℕ) (w : OrgTables) (u : Unit {0})
      → (insert_owner_row bad text_of s org user w).1 ≡ ok u
      → (insert_owner_row bad text_of s org user w).0
        ≡ record w { members = and_last w.members (owner org user) }
  unfolding insert_owner_row
  insert_owner_row-ok org user w u e = elim (Option-cases (find (is_member org user) w.members)) [
    | inl n ↦ ground arith
    | inr (q, f) ↦ absurd (ground arith)
  ]

  org_audit-ok :
      (k : Named) (org user : ℕ) (o : OrgRow) (u : Unit {0}) (w v : OrgTables) (out : OrgRow)
      → org_audit bad text_of s k org user o u w ≡ (v, returned (ok out))
      → (v ≡ record w { log = and_last w.log (org_created k org user) }) × (out ≡ o)
  unfolding org_audit then_do record_org
  org_audit-ok k org user o u w v out e =
      elim (Bool-cases (bad record_created || not (in_scope text_of s org))) [
        | inl f ↦ absurd (ground arith)
        | inr f ↦ (ground (arith), ground (arith))
      ]

  org_owner-ok :
      (k : Named) (org user : ℕ) (o : OrgRow) (w v : OrgTables) (out : OrgRow)
      → org_owner bad text_of s k org user o w ≡ (v, returned (ok out))
      → (v ≡ record w {
        members = and_last w.members (owner org user);
        log = and_last w.log (org_created k org user);
      })
        × (out ≡ o)
  unfolding org_owner
  org_owner-ok k org user o w v out e =
      let x = insert_owner_row bad text_of s org user w in
      let (u, done, e') = then_do-ok x (org_audit bad text_of s k org user o) v out e in
      let (ends, shown) = org_audit-ok k org user o u x.0 v out e' in
      (
        ends
            ∙ ap (λ (t : OrgTables). record t { log = and_last t.log (org_created k org user) })
                (insert_owner_row-ok org user w u done),
        shown,
      )

  pub org_tx-ok :
      (k : Named) (org user now : ℕ) (w v : OrgTables) (out : OrgRow)
      → org_tx bad text_of s k org user now w ≡ (v, returned (ok out))
      → (v ≡ with_org_of k org user now w)
        × (out ≡ new_org k org now)
        × (find (same_org org k.slug) w.orgs ≡ none)
  unfolding org_tx
  org_tx-ok k org user now w v out e =
      let x = insert_org_row bad text_of s k org now w in
      let (o, done, e') = then_do-ok x (org_owner bad text_of s k org user) v out e in
      let (is, rows, free) = insert_org_row-ok k org now w o done in
      let (ends, shown) = org_owner-ok k org user o x.0 v out e' in
      (
        ends
            ∙ ap
                (λ (t : OrgTables). record t {
                  members = and_last t.members (owner org user);
                  log = and_last t.log (org_created k org user);
                })
                rows,
        shown ∙ is,
        free,
      )

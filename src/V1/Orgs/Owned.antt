-- ===== src/V1/Orgs/Owned.antt =====
-- services/api/internal/v1/orgs.go: what createOrg leaves behind.
use cofound.Prelude.{
  ℕ, String, ◌≡◌, ◌≢◌, ◌⊎◌, refl, true, false, Option, none, some, List, arith, inl, inr, find,
  Bool, Bool-cases, ap, sym, subst, ◌∙◌, ◌=s◌, trim_space,
}
use cofound.Errs.Types.{GoError}
use cofound.Errs.Outcome.{Outcome, ok, err, Outcome-cases}
use cofound.V1.Slugs.{valid_slug}
use cofound.Db.Scope.{
  Principal, Settings, Conn, Ran, returned, panicked, Plain, scope_as, scope_org_and_user,
}
use cofound.Db.Confined.{local_settings}
use cofound.Db.Scope as Scope
use cofound.V1.Orgs.{
  OrgBody, OrgRow, OrgTables, OrgStmt, Named, judge_slug, judge_body, slug_of, same_org, new_org,
  answer_org, org_tx, create_named, create_org,
}
use cofound.V1.Orgs.Written.{with_org_of, org_tx-ok}
use cofound.Db.Kept.{scope_org_and_user-keeps}

judge_slug-valid :
    (name : String) (slug : List ℕ) (k : Named)
    → judge_slug name slug ≡ ok k
    → (valid_slug k.slug ≡ true) × ((k.name =s "") ≡ false)
unfolding judge_slug
judge_slug-valid name slug k e = elim (Bool-cases (name =s "")) [
  | inl b ↦ absurd (ground arith)
  | inr b ↦ elim (Bool-cases (valid_slug slug)) [
    | inl v ↦ (ground (arith), ground (arith))
    | inr v ↦ absurd (ground arith)
  ]
]

judge_body-valid :
    (b : OrgBody) (k : Named)
    → judge_body b ≡ ok k
    → (valid_slug k.slug ≡ true) × ((k.name =s "") ≡ false)
unfolding judge_body
judge_body-valid b k e = judge_slug-valid (trim_space b.name) (slug_of b (trim_space b.name)) k e

-- A call of createOrg changes nothing and gives no org, or it has done the whole of its work.
unfoldable pub Owns :
    Option ℕ → OrgBody → ℕ → ℕ → Conn OrgTables → Conn OrgTables × Ran OrgRow → Type 0
Owns caller b org now c x =
    ((x.0 ≡ c) × ((o : OrgRow) → x.1 ≢ returned (ok o)))
    ⊎ ((user : ℕ) × (k : Named) × (caller ≡ some user)
        × (judge_body b ≡ ok k)
        × (valid_slug k.slug ≡ true)
        × ((k.name =s "") ≡ false)
        × (find (same_org org k.slug) c.rows.orgs ≡ none)
        × (x.0 ≡ record c { rows = with_org_of k org user now c.rows })
        × (x.1 ≡ returned (ok (new_org k org now))))

answer_org-none :
    (x : Conn OrgTables × Ran OrgRow)
    → ((o : OrgRow) → x.1 ≢ returned (ok o))
    → (o : OrgRow) → (answer_org x).1 ≢ returned (ok o)
unfolding answer_org
answer_org-none (c, panicked) h o e = absurd (ground arith)
answer_org-none (c, returned (ok b)) h o e = absurd (h b refl)
answer_org-none (c, returned (err x)) h o e = absurd (ground arith)

answer_org-conn : (x : Conn OrgTables × Ran OrgRow) → (answer_org x).0 ≡ x.0
unfolding answer_org
answer_org-conn (c, panicked) = refl
answer_org-conn (c, returned (ok b)) = refl
answer_org-conn (c, returned (err x)) = refl

module _ (bad : OrgStmt → Bool) (tx_bad : Scope.Refuses) (text_of : ℕ → String) where
  create_named-Owns :
      (user : ℕ) (b : OrgBody) (org now : ℕ) (c : Conn OrgTables) (k : Named)
      → judge_body b ≡ ok k
      → Owns (some user) b org now c (create_named bad tx_bad text_of user org now c (ok k))
  unfolding create_named Owns answer_org
  create_named-Owns user b org now c k f =
      elim (scope_org_and_user-keeps tx_bad (text_of org) (text_of user)
        (λ s w. org_tx bad text_of s k org user now w) c) [
          | inl (same, none_given) ↦ inl (answer_org-conn _ ∙ same, answer_org-none _ none_given)
          | inr (a, d, ran, is) ↦
              let (rows, shown, free) =
                org_tx-ok bad text_of
                  (local_settings (record { org_id = text_of org; user_id = text_of user })
                    c.settings)
                  k org user now c.rows d a ran in
              let (valid, named) = judge_body-valid b k f in
              inr (
                user,
                k,
                refl,
                f,
                valid,
                named,
                free,
                answer_org-conn _
                    ∙ ap (λ (x : Conn OrgTables × Ran OrgRow). x.0) is
                    ∙ ap (λ (t : OrgTables). record c { rows = t }) rows,
                answer_org-value is ∙ ap (λ (o : OrgRow). returned (ok o)) shown,
              )
        ]
    where
      answer_org-value :
          {x : Conn OrgTables × Ran OrgRow} {d : Conn OrgTables} {a : OrgRow}
          → x ≡ (d, returned (ok a))
          → (answer_org x).1 ≡ returned (ok a)
      answer_org-value e = ap (λ (x : Conn OrgTables × Ran OrgRow). (answer_org x).1) e

  abbrev NamedOwns : ℕ → OrgBody → ℕ → ℕ → Conn OrgTables → Outcome Named → Type 0
  NamedOwns user b org now c y =
      Owns (some user) b org now c (create_named bad tx_bad text_of user org now c y)

  create_named-refused :
      (user : ℕ) (b : OrgBody) (org now : ℕ) (c : Conn OrgTables) (e : GoError)
      → NamedOwns user b org now c (err e)
  unfolding create_named Owns
  create_named-refused user b org now c e = inl (refl, λ o h. absurd (ground arith))

  -- createOrg, for any caller, any body and whichever statements fail, either leaves the database as
  -- it was and answers with no org; or a signed-in caller asked for it, its name is not empty, its
  -- slug is valid and was free, and the database has gained just that org, the caller as its owner,
  -- and one audit event.
  pub create_org-Owns :
      (caller : Option ℕ) (b : OrgBody) (org now : ℕ) (c : Conn OrgTables)
      → Owns caller b org now c (create_org bad tx_bad text_of caller b org now c)
  unfolding create_org Owns
  create_org-Owns none b org now c = inl (refl, λ o h. absurd (ground arith))
  create_org-Owns (some user) b org now c = elim (Outcome-cases (judge_body b)) [
    | inr (e, f) ↦
        subst (NamedOwns user b org now c) (sym f) (create_named-refused user b org now c e)
    | inl (k, f) ↦
        subst (NamedOwns user b org now c) (sym f) (create_named-Owns user b org now c k f)
  ]

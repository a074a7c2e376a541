-- ===== src/Db/Confined.antt =====
-- What a scoped transaction may see, and what it leaves on the pooled connection.
use cofound.Prelude.{
  ◌≡◌, ◌⊎◌, refl, List, [], ◌∷◌, In, inl, inr, arith, ◌=s◌, eq_iff, Bool-cases, ap, sym, subst, ◌∙◌,
  ◌&&◌, if◌then◌else◌,
}
use cofound.Errs.Types.{GoError}
use cofound.Errs.Outcome.{ok, err}
use cofound.Db.Scope.{
  Principal, Settings, Conn, Tx, Ran, returned, panicked, Refuses, Body, Plain, plain, set_config,
  begun, committed, with_org, with_user, set_fails, settle, scope_as, begin_tx, set_org, set_user,
  commit_tx,
}

-- The settings that a principal's transaction should see on a connection that has `s`.
unfoldable pub local_settings : Principal → Settings → Settings
local_settings who s = record {
  org = if who.org_id =s "" then s.org else who.org_id;
  user = if who.user_id =s "" then s.user else who.user_id;
}

-- The transaction that fn should find.
abbrev pub opened : {D : Type 0} → Settings → Conn D → Tx D
opened s c = record { session = c.settings; current = s; rows = c.rows }

-- How a scoped transaction ends: nothing has changed and no value is returned, or fn has run once
-- in the settings `s`, and its commit is kept, and its value is returned.
abbrev pub Commits : {D A : Type 0} → Settings → Body D A → Conn D → Conn D × Ran A → Type 0
Commits {D} {A} s fn c x =
    ((x.0 ≡ c) × (((e : GoError) × (x.1 ≡ returned (err e))) ⊎ (x.1 ≡ panicked)))
    ⊎ ((a : A) × (t : Tx D) × (fn (opened s c) ≡ (t, returned (ok a)))
        × (x ≡ (committed t, returned (ok a))))

module _ {D : Type 0} (who : Principal) (c : Conn D) where
  begun-opened : with_user who (with_org who (begun c)) ≡ opened (local_settings who c.settings) c
  unfolding with_user with_org begun set_config local_settings
  begun-opened = elim (Bool-cases (who.org_id =s "")) [
    | inl b ↦ elim (Bool-cases (who.user_id =s "")) [
      | inl d ↦ rw (b, d) refl
      | inr d ↦ rw (b, d) refl
    ]
    | inr b ↦ elim (Bool-cases (who.user_id =s "")) [
      | inl d ↦ rw (b, d) refl
      | inr d ↦ rw (b, d) refl
    ]
  ]

module _ {D A : Type 0} (bad : Refuses) (who : Principal) (fn : Body D A) (c : Conn D) where
  settle-Commits :
      (s : Settings) (x : Tx D × Ran A) → fn (opened s c) ≡ x → Commits s fn c (settle bad c x)
  unfolding settle
  settle-Commits s (t, panicked) e = inl (refl, inr refl)
  settle-Commits s (t, returned (err x)) e = inl (refl, inl (x, refl))
  settle-Commits s (t, returned (ok a)) e = elim (Bool-cases (bad commit_tx)) [
    | inl b ↦ rw b (inl (refl, inl (_, refl)))
    | inr b ↦ rw b (inr (a, t, e, refl))
  ]

  failed-Commits : (s : Settings) (e : GoError) → Commits s fn c (c, returned (err e))
  failed-Commits s e = inl (refl, inl (e, refl))

  run-Commits :
      Commits
        (local_settings who c.settings)
        fn
        c
        (settle bad c (fn (with_user who (with_org who (begun c)))))
  run-Commits =
      let s = local_settings who c.settings in
      subst (λ t. Commits s fn c (settle bad c (fn t))) (sym (begun-opened who c))
        (settle-Commits s (fn (opened s c)) refl)

  pub scope_as-Commits : Commits (local_settings who c.settings) fn c (scope_as bad who fn c)
  unfolding scope_as local_settings committed
  scope_as-Commits = elim (Bool-cases (who.org_id =s "" && who.user_id =s "")) [
    | inl b ↦ rw (b, scope_as) (failed-Commits _ _)
    | inr b ↦ elim (Bool-cases (bad begin_tx)) [
      | inl d ↦ rw (b, d, scope_as) (failed-Commits _ _)
      | inr d ↦ elim (Bool-cases (set_fails bad set_org who.org_id)) [
        | inl e ↦ rw (b, d, e, scope_as) (failed-Commits _ _)
        | inr e ↦ elim (Bool-cases (set_fails bad set_user who.user_id)) [
          | inl f ↦ rw (b, d, e, f, scope_as) (failed-Commits _ _)
          | inr f ↦ rw (b, d, e, f, scope_as) run-Commits
        ]
      ]
    ]
  ]

-- The same for a body that sets nothing: the connection keeps its settings.
abbrev pub Ends : {D A : Type 0} → Settings → Plain D A → Conn D → Conn D × Ran A → Type 0
Ends {D} {A} s fn c x =
    ((x.0 ≡ c) × (((e : GoError) × (x.1 ≡ returned (err e))) ⊎ (x.1 ≡ panicked)))
    ⊎ ((a : A) × (d : D) × (fn s c.rows ≡ (d, returned (ok a)))
        × (x ≡ (record c { rows = d }, returned (ok a))))

module _ {D A : Type 0} (bad : Refuses) (who : Principal) (fn : Plain D A) (c : Conn D) where
  plain-ran :
      (s : Settings) (t : Tx D) (a : A)
      → plain fn (opened s c) ≡ (t, returned (ok a))
      → (fn s c.rows ≡ (t.rows, returned (ok a))) × (committed t ≡ record c { rows = t.rows })
  unfolding plain committed
  plain-ran s t a e =
      (λ i. ((e i).0.rows, (e i).1), λ i. record { settings = (sym e i).0.session; rows = t.rows })

  pub scope_as-Ends : Ends (local_settings who c.settings) fn c (scope_as bad who (plain fn) c)
  scope_as-Ends = elim (scope_as-Commits bad who (plain fn) c) [
    | inl none_kept ↦ inl none_kept
    | inr (a, t, ran, is) ↦
        let (goes, same) = plain-ran (local_settings who c.settings) t a ran in
        inr (a, t.rows, goes, is ∙ ap (λ (x : Conn D). (x, returned (ok a))) same)
  ]

abbrev pub clear : Settings
clear = record { org = ""; user = "" }

local-clear :
    (who : Principal) → local_settings who clear ≡ record { org = who.org_id; user = who.user_id }
unfolding local_settings
local-clear who = elim (Bool-cases (who.org_id =s "")) [
  | inl b ↦ elim (Bool-cases (who.user_id =s "")) [
    | inl d ↦ ground (arith, eq_iff who.org_id "", eq_iff who.user_id "")
    | inr d ↦ ground (arith, eq_iff who.org_id "")
  ]
  | inr b ↦ elim (Bool-cases (who.user_id =s "")) [
    | inl d ↦ ground (arith, eq_iff who.user_id "")
    | inr d ↦ ground arith
  ]
]

module _ {D A : Type 0} where
  -- The body leaves the settings of the session alone: what it sets, if anything, is local.
  abbrev pub KeepsSession : Body D A → Type 0
  KeepsSession fn = (t : Tx D) → (fn t).0.session ≡ t.session

  -- The connection after one borrower has used it, and another, and so on.
  unfoldable pub borrowed : List (Refuses × Principal × Body D A) → Conn D → Conn D
  unfolding scope_as
  borrowed [] c = c
  borrowed ((bad, who, fn) ∷ xs) c = borrowed xs (scope_as bad who fn c).0

  scope_as-settings :
      (bad : Refuses) (who : Principal) (fn : Body D A) (c : Conn D)
      → KeepsSession fn
      → (scope_as bad who fn c).0.settings ≡ c.settings
  unfolding committed
  scope_as-settings bad who fn c k = elim (scope_as-Commits bad who fn c) [
    | inl (same, why) ↦ ap (λ (x : Conn D). x.settings) same
    | inr (a, t, ran, is) ↦
        ap (λ (x : Conn D × Ran A). x.0.settings) is
        ∙ ap (λ (x : Tx D × Ran A). x.0.session) (sym ran)
        ∙ k (opened (local_settings who c.settings) c)
  ]

  borrowed-settings :
      (xs : List (Refuses × Principal × Body D A)) (c : Conn D)
      → ((x : Refuses × Principal × Body D A) → In x xs → KeepsSession x.2)
      → (borrowed xs c).settings ≡ c.settings
  unfolding borrowed
  borrowed-settings [] c k = refl
  borrowed-settings ((bad, who, fn) ∷ xs) c k =
      borrowed-settings xs (scope_as bad who fn c).0 (λ x i. k x (inr i))
      ∙ scope_as-settings bad who fn c (k (bad, who, fn) (inl refl))

  -- A connection that had no settings when the pool opened it, and that any callers of ScopeAs have
  -- borrowed since, one after another, whichever statements failed, and whose functions set nothing for
  -- the session: ScopeAs either leaves it as it is, with an error or the panic of fn passed on, or runs fn
  -- once, seeing exactly the org and the user of this principal and nothing of an earlier one, and keeps
  -- what fn committed.
  pub scope_as-own :
      (bad : Refuses) (who : Principal) (fn : Body D A)
      (earlier : List (Refuses × Principal × Body D A)) (c : Conn D)
      → c.settings ≡ clear
      → ((x : Refuses × Principal × Body D A) → In x earlier → KeepsSession x.2)
      → Commits
          (record { org = who.org_id; user = who.user_id })
          fn
          (borrowed earlier c)
          (scope_as bad who fn (borrowed earlier c))
  scope_as-own bad who fn earlier c e k =
      let here : local_settings who (borrowed earlier c).settings
          ≡ record { org = who.org_id; user = who.user_id } =
        ap (local_settings who) (borrowed-settings earlier c k ∙ e) ∙ local-clear who in
      subst (λ s. Commits s fn (borrowed earlier c) (scope_as bad who fn (borrowed earlier c))) here
        (scope_as-Commits bad who fn (borrowed earlier c))

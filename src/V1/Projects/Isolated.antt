-- ===== src/V1/Projects/Isolated.antt =====
-- services/api/internal/v1/projects.go: what listProjects shows.
use cofound.Prelude.{
  ℕ, ◌≤◌, String, ◌≡◌, ◌⊎◌, true, none, List, [], ◌∷◌, arith, inl, inr, In, Bool-cases, ap, sym,
  subst, ◌∙◌, ltb, eq_iff,
}
use cofound.Errs.Outcome.{ok}
use cofound.Tenancy.Directory.{Membership}
use cofound.Db.Scope.{Settings, Conn, Ran, returned}
use cofound.Db.Confined.{local_settings}
use cofound.Db.Scope as Scope
use cofound.V1.Projects.Store.{ProjectRow, Tables, Refuses, in_scope, select_projects}
use cofound.V1.Projects.Reads.{list_projects, list_tx, listed, is_listed, place_newest}
use cofound.V1.Projects.Settled.{scoped-Settles, scoped-org}

-- Each project was created no earlier than those that follow it.
unfoldable pub IsNewestFirst : List ProjectRow → Type 0
IsNewestFirst [] = Unit
IsNewestFirst (p ∷ ps) =
    ((q : ProjectRow) → In q ps → q.created_at ≤ p.created_at) × IsNewestFirst ps

In-place_newest :
    (q p : ProjectRow) (ps : List ProjectRow) → In q (place_newest p ps) → (q ≡ p) ⊎ In q ps
unfolding place_newest
In-place_newest q p [] (inl e) = inl e
In-place_newest q p [] (inr k) = absurd k
In-place_newest q p (x ∷ ps) i = elim (Bool-cases (ltb p.created_at x.created_at)) [
  | inl b ↦ elim (rw (b, place_newest) at i) [
    | inl e ↦ inr (inl e)
    | inr j ↦ elim (In-place_newest q p ps j) [ inl e ↦ inl e | inr k ↦ inr (inr k) ]
  ]
  | inr b ↦ elim (rw (b, place_newest) at i) [ inl e ↦ inl e | inr j ↦ inr j ]
]

place_newest-In :
    (q p : ProjectRow) (ps : List ProjectRow) → (q ≡ p) ⊎ In q ps → In q (place_newest p ps)
unfolding place_newest
place_newest-In q p [] (inl e) = inl e
place_newest-In q p [] (inr k) = absurd k
place_newest-In q p (x ∷ ps) h = elim (Bool-cases (ltb p.created_at x.created_at)) [
  | inl b ↦ rw b (elim h [
    | inl e ↦ inr (place_newest-In q p ps (inl e))
    | inr (inl e) ↦ inl e
    | inr (inr k) ↦ inr (place_newest-In q p ps (inr k))
  ])
  | inr b ↦ rw b h
]

place_newest-IsNewestFirst :
    (p : ProjectRow) (ps : List ProjectRow) → IsNewestFirst ps → IsNewestFirst (place_newest p ps)
unfolding IsNewestFirst place_newest
place_newest-IsNewestFirst p [] s = (λ q k. absurd k, tt)
place_newest-IsNewestFirst p (x ∷ ps) (le, s) = elim (Bool-cases (ltb p.created_at x.created_at)) [
  | inl b ↦ rw b (
    λ q i. elim (In-place_newest q p ps i) [ inl e ↦ ground (arith) | inr j ↦ le q j ],
    place_newest-IsNewestFirst p ps s,
  )
  | inr b ↦
      rw b (λ q i. elim i [ inl e ↦ ground (arith) | inr j ↦ ground (arith, le q j) ], (le, s))
]

module _ (text_of : ℕ → String) (s : Settings) where
  listed-IsNewestFirst : (ps : List ProjectRow) → IsNewestFirst (listed text_of s ps)
  unfolding IsNewestFirst listed
  listed-IsNewestFirst [] = tt
  listed-IsNewestFirst (p ∷ ps) = elim (Bool-cases (is_listed text_of s p)) [
    | inl b ↦ rw b (place_newest-IsNewestFirst p (listed text_of s ps) (listed-IsNewestFirst ps))
    | inr b ↦ rw b (listed-IsNewestFirst ps)
  ]

  In-listed :
      (q : ProjectRow) (ps : List ProjectRow)
      → In q (listed text_of s ps)
      → In q ps × (is_listed text_of s q ≡ true)
  unfolding listed
  In-listed q [] k = absurd k
  In-listed q (p ∷ ps) i = elim (Bool-cases (is_listed text_of s p)) [
    | inl b ↦ elim (In-place_newest q p (listed text_of s ps) (rw (b, listed) at i)) [
      | inl e ↦ (inl e, rw e b)
      | inr j ↦ let (k, l) = In-listed q ps j in (inr k, l)
    ]
    | inr b ↦ let (k, l) = In-listed q ps (rw (b, listed) at i) in (inr k, l)
  ]

  listed-In :
      (q : ProjectRow) (ps : List ProjectRow)
      → In q ps
      → is_listed text_of s q ≡ true
      → In q (listed text_of s ps)
  unfolding listed
  listed-In q [] k l = absurd k
  listed-In q (p ∷ ps) i l = elim (Bool-cases (is_listed text_of s p)) [
    | inl b ↦ rw b (
        place_newest-In q p (listed text_of s ps)
          (elim i [ inl e ↦ inl e | inr j ↦ inr (listed-In q ps j l) ]))
    | inr b ↦ rw b (elim i [ inl e ↦ absurd (ground arith) | inr j ↦ listed-In q ps j l ])
  ]

  list_tx-ok :
      (bad : Refuses) (w d : Tables) (ps : List ProjectRow)
      → list_tx bad text_of s w ≡ (d, returned (ok ps))
      → ps ≡ listed text_of s w.projects
  unfolding list_tx
  list_tx-ok bad w d ps e = elim (Bool-cases (bad select_projects)) [
    | inl b ↦ absurd (ground arith)
    | inr b ↦ ground arith
  ]

same_value : {A : Type 0} → (x y : A) → ◌≡◌ {A = Ran A} (returned (ok x)) (returned (ok y)) → x ≡ y
same_value x y e = cc

-- The list holds the org's projects that are not archived and no others, the newest first.
pub record Lists (org : ℕ) (rows ps : List ProjectRow) : Type 0 where
  pub own : (p : ProjectRow) → In p ps → In p rows × (p.org_id ≡ org) × (p.archived_at ≡ none)
  pub every : (p : ProjectRow) → In p rows → p.org_id ≡ org → p.archived_at ≡ none → In p ps
  pub newest_first : IsNewestFirst ps

module _ (text_of : ℕ → String) (injective : (i j : ℕ) → text_of i ≡ text_of j → i ≡ j) where
  is_listed-own :
      (s : Settings) (org : ℕ) (p : ProjectRow)
      → s.org ≡ text_of org
      → is_listed text_of s p ≡ true
      → (p.org_id ≡ org) × (p.archived_at ≡ none)
  unfolding is_listed in_scope
  is_listed-own s org p e l =
      let same : text_of p.org_id ≡ text_of org = ground (arith, eq_iff (text_of p.org_id) s.org) in
      (injective p.org_id org same, ground (arith))

  is_listed-every :
      (s : Settings) (org : ℕ) (p : ProjectRow)
      → s.org ≡ text_of org
      → p.org_id ≡ org
      → p.archived_at ≡ none
      → is_listed text_of s p ≡ true
  unfolding is_listed in_scope
  is_listed-every s org p e o a = ground (arith, eq_iff (text_of p.org_id) s.org)

  listed-Lists :
      (s : Settings) (org : ℕ) (rows : List ProjectRow)
      → s.org ≡ text_of org
      → Lists org rows (listed text_of s rows)
  listed-Lists s org rows e = record {
    own = λ p i.
        let (k, l) = In-listed text_of s p rows i in
        let (o, a) = is_listed-own s org p e l in (k, o, a);
    every = λ p i o a. listed-In text_of s p rows i (is_listed-every s org p e o a);
    newest_first = listed-IsNewestFirst text_of s rows;
  }

  -- If distinct ids print distinctly: a list that listProjects answers with holds every project of
  -- the caller's org that is not archived and no other one, the newest first, whatever the settings
  -- of the connection were.
  pub list_projects-Lists :
      (bad : Refuses) (tx_bad : Scope.Refuses) (m : Membership) (c : Conn Tables)
      (ps : List ProjectRow)
      → (list_projects bad text_of tx_bad m c).1 ≡ returned (ok ps)
      → Lists m.org_id c.rows.projects ps
  unfolding list_projects list_tx
  list_projects-Lists bad tx_bad m c ps e =
      elim (scoped-Settles tx_bad text_of m (list_tx bad text_of) c) [
        | inl (same, none_given) ↦ absurd (none_given ps e)
        | inr (a, d, ran, is) ↦
            let s =
              local_settings (record { org_id = text_of m.org_id; user_id = text_of m.user_id })
                c.settings in
            let mine : s.org ≡ text_of m.org_id =
              scoped-org tx_bad text_of m (list_tx bad text_of) c ps e in
            let shown : ps ≡ listed text_of s c.rows.projects =
              same_value ps a (sym e ∙ ap (λ (x : Conn Tables × Ran (List ProjectRow)). x.1) is)
              ∙ list_tx-ok text_of s bad c.rows d a ran in
            subst (Lists m.org_id c.rows.projects) (sym shown)
              (listed-Lists s m.org_id c.rows.projects mine)
      ]

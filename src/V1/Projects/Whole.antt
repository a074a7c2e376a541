-- ===== src/V1/Projects/Whole.antt =====
-- services/api/internal/v1/projects.go: what holds of the projects and their branches between calls.
use cofound.Prelude.{
  ℕ, ◌<◌, ◌≡◌, ◌≢◌, ◌⊎◌, refl, true, none, List, [], ◌∷◌, and_last, arith, inl, inr, find, In,
  In-append, ap, sym,
}
use cofound.Config.Parse.{same_codes}
use cofound.Tenancy.Directory.{Membership}
use cofound.V1.Projects.Store.{ProjectRow, Branch, Tables, same_name, new_project, new_branch}
use cofound.V1.Projects.Create.{Wanted}
use cofound.V1.Projects.Steps.{with_project, first_project, first_branch}

-- A branch of the project under its default name.
abbrev pub HasDefault : Tables → ProjectRow → Type 0
HasDefault w p =
    (b : Branch) × In b w.branches
    × (b.project_id ≡ p.id)
    × (b.org_id ≡ p.org_id)
    × (b.name ≡ p.default_branch)

pub record IsWhole (w : Tables) : Type 0 where
  pub fresh : (p : ProjectRow) → In p w.projects → p.id < w.next_id
  pub branched : (p : ProjectRow) → In p w.projects → HasDefault w p
  pub unique :
      (p q : ProjectRow)
      → In p w.projects
      → In q w.projects
      → p.org_id ≡ q.org_id
      → p.slug ≡ q.slug
      → p.id ≡ q.id

same_codes_refl : (xs : List ℕ) → same_codes xs xs ≡ true
same_codes_refl [] = refl
same_codes_refl (x ∷ xs) = ground (arith, same_codes_refl xs)

find-none :
    (org : ℕ) (slug : List ℕ) (p : ProjectRow) (ps : List ProjectRow)
    → find (same_name org slug) ps ≡ none
    → In p ps
    → p.org_id ≡ org
    → p.slug ≢ slug
unfolding find same_name
find-none org slug p [] e h o = absurd h
find-none org slug p (q ∷ ps) e (inl h) o = λ same. absurd (ground (arith, same_codes_refl slug))
find-none org slug p (q ∷ ps) e (inr h) o = find-none org slug p ps (ground (arith)) h o

In-last : {A : Type 0} → (x : A) (xs : List A) → In x (and_last xs x)
In-last x [] = inl refl
In-last x (y ∷ xs) = inr (In-last x xs)

In-before : {A : Type 0} → (x y : A) (xs : List A) → In x xs → In x (and_last xs y)
In-before x y [] h = absurd h
In-before x y (z ∷ xs) (inl e) = inl e
In-before x y (z ∷ xs) (inr h) = inr (In-before x y xs h)

In-and_last : {A : Type 0} → (x y : A) (xs : List A) → In x (and_last xs y) → In x xs ⊎ (x ≡ y)
In-and_last x y xs h = elim (In-append x xs (y ∷ []) h) [
  | inl i ↦ inl i
  | inr (inl e) ↦ inr e
  | inr (inr k) ↦ absurd k
]

pub with_project-IsWhole :
    (m : Membership) (k : Wanted) (now : ℕ) (w : Tables)
    → IsWhole w
    → find (same_name m.org_id k.slug) w.projects ≡ none
    → IsWhole (with_project m k now w)
unfolding new_project new_branch
with_project-IsWhole m k now w inv free = record {
  fresh = λ p i. elim (In-and_last p (first_project m k now w) w.projects i) [
    | inl j ↦ ground (arith, inv.fresh p j)
    | inr e ↦ ground arith
  ];
  branched = λ p i. elim (In-and_last p (first_project m k now w) w.projects i) [
    | inl j ↦
        let (b, ib, own, org, name) = inv.branched p j in
        (b, In-before b (first_branch m w) w.branches ib, own, org, name)
    | inr e ↦ (
      first_branch m w,
      In-last (first_branch m w) w.branches,
      ap (λ (x : ProjectRow). x.id) (sym e),
      ap (λ (x : ProjectRow). x.org_id) (sym e),
      ap (λ (x : ProjectRow). x.default_branch) (sym e),
    )
  ];
  unique = λ p q i j org slug. ground (
    arith,
    In-and_last p (first_project m k now w) w.projects i,
    In-and_last q (first_project m k now w) w.projects j,
    inv.unique p q,
    find-none m.org_id k.slug p w.projects free,
    find-none m.org_id k.slug q w.projects free,
  );
}

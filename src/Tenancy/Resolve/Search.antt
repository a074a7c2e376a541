-- ===== src/Tenancy/Resolve/Search.antt =====
-- What the lookups by org and by project find: memberships of the caller.

use cofound.Prelude.{
  ℕ, String, ◌≡◌, refl, ◌⊎◌, inl, inr, some, List, [], ◌∷◌, arith, ◌==◌, ◌=s◌, In, In-find, find,
  Option-cases, subst,
}
use cofound.Tenancy.Directory.{
  Directory, Org, Member, Project, Refuses, Membership, ok, is_member, select_org, is_project,
  select_project, Outcome-cases, Candidate, joined, place, ordered, orgs_for,
}
use cofound.Tenancy.Resolve.{by_org_slug, search_orgs, choose, by_project_and_org, by_project_alone}

-- What a membership claims: the user is a member of the org with the role, and a project that it
-- names is one of the org's.
pub record IsTrue (d : Directory) (user : ℕ) (m : Membership) : Type 0 where
  pub own : m.user_id ≡ user
  pub row :
      (r : Member) × In r d.members × (r.org_id ≡ m.org_id) × (r.user_id ≡ user) × (r.role ≡ m.role)
  pub project :
      (m.project_id ≡ 0)
      ⊎ ((p : Project) × In p d.projects × (p.id ≡ m.project_id) × (p.org_id ≡ m.org_id))

select_org-In :
    (d : Directory) (user : ℕ) (slug : String) (o : Org) (m : Member)
    → select_org d user slug ≡ some (o, m)
    → In m d.members × (m.org_id ≡ o.id) × (m.user_id ≡ user)
unfolding select_org is_member
select_org-In d user slug o m e = elim (Option-cases (find (λ (x : Org). x.slug =s slug) d.orgs)) [
  | inl n ↦ absurd (ground arith)
  | inr (x, f) ↦ elim (Option-cases (find (is_member x.id user) d.members)) [
    | inl n ↦ absurd (ground arith)
    | inr (y, g) ↦ ground (arith, In-find (is_member x.id user) y d.members g)
  ]
]

select_project-In :
    (d : Directory) (org : ℕ) (slug : String) (p : Project)
    → select_project d org slug ≡ some p
    → In p d.projects × (p.org_id ≡ org)
unfolding select_project is_project
select_project-In d org slug p e = ground (arith, In-find (is_project org slug) p d.projects e)

pub by_org_slug-IsTrue :
    (bad : Refuses) (d : Directory) (user : ℕ) (slug : String) (m : Membership)
    → by_org_slug bad d user slug ≡ ok m
    → IsTrue d user m
unfolding by_org_slug
by_org_slug-IsTrue bad d user slug m e = elim (Option-cases (select_org d user slug)) [
  | inl n ↦ absurd (ground arith)
  | inr ((o, r), f) ↦
      let (i, org, own) = select_org-In d user slug o r f in
      record {
        own = ground arith;
        row = (r, i, ground arith, own, ground arith);
        project = inl (ground arith);
      }
]

pub by_project_and_org-IsTrue :
    (bad : Refuses) (d : Directory) (user : ℕ) (slug org_slug : String) (m : Membership)
    → by_project_and_org bad d user slug org_slug ≡ ok m
    → IsTrue d user m
unfolding by_project_and_org
by_project_and_org-IsTrue bad d user slug org_slug m e =
    elim (Outcome-cases (by_org_slug bad d user org_slug)) [
      | inr (x, f) ↦ absurd (ground arith)
      | inl (n, f) ↦ elim (Option-cases (select_project d n.org_id slug)) [
        | inl g ↦ absurd (ground arith)
        | inr (p, g) ↦
            let t = by_org_slug-IsTrue bad d user org_slug n f in
            let (r, i, org, own, role) = t.row in
            let (ip, po) = select_project-In d n.org_id slug p g in
            record {
              own = ground (arith, t.own);
              row = (r, i, ground arith, own, ground arith);
              project = inr (p, ip, ground arith, ground arith);
            }
      ]
    ]

-- A candidate stands for a membership of the user.
abbrev IsCandidate : Directory → ℕ → Candidate → Type 0
IsCandidate d user c =
    (r : Member) × In r d.members × (r.org_id ≡ c.id) × (r.user_id ≡ user) × (r.role ≡ c.role)

In-place : (x c : Candidate) (xs : List Candidate) → In x (place c xs) → (x ≡ c) ⊎ In x xs
unfolding place
In-place x c [] h = ground arith
In-place x c (y ∷ ys) h = ground (arith, In-place x c ys)

In-ordered : (x : Candidate) (xs : List Candidate) → In x (ordered xs) → In x xs
unfolding ordered
In-ordered x [] h = h
In-ordered x (c ∷ cs) h = ground (arith, In-place x c (ordered cs), In-ordered x cs)

joined_step :
    (d : Directory) (user : ℕ) (m : Member) (ms : List Member) (c : Candidate)
    → In c (joined d user (m ∷ ms))
    → ((m.user_id ≡ user) × (m.org_id ≡ c.id) × (m.role ≡ c.role)) ⊎ In c (joined d user ms)
unfolding joined
joined_step d user m ms c h = elim (Option-cases (find (λ (o : Org). o.id == m.org_id) d.orgs)) [
  | inl n ↦ ground arith
  | inr (o, f) ↦ ground (arith, In-find (λ (x : Org). x.id == m.org_id) o d.orgs f)
]

joined-IsCandidate :
    (d : Directory) (user : ℕ) (ms : List Member)
    → ((r : Member) → In r ms → In r d.members)
    → (c : Candidate) → In c (joined d user ms)
    → IsCandidate d user c
joined-IsCandidate d user [] all c h = unfold joined in absurd h
joined-IsCandidate d user (m ∷ ms) all c h = elim (joined_step d user m ms c h) [
  | inl (own, org, role) ↦ (m, all m (inl refl), org, own, role)
  | inr later ↦ joined-IsCandidate d user ms (λ r i. all r (inr i)) c later
]

abbrev found_in : ℕ → Candidate → Project → Membership
found_in user c p = record {
  user_id = user;
  org_id = c.id;
  role = c.role;
  org_slug = c.slug;
  project_id = p.id;
}

search_step :
    (bad : Refuses) (d : Directory) (user : ℕ) (slug : String) (c : Candidate) (cs : List Candidate)
    (ms : List Membership) (m : Membership)
    → search_orgs bad d user slug (c ∷ cs) ≡ ok ms
    → In m ms
    → ((p : Project) × (select_project d c.id slug ≡ some p) × (m ≡ found_in user c p))
      ⊎ ((rest : List Membership) × (search_orgs bad d user slug cs ≡ ok rest) × In m rest)
unfolding search_orgs
search_step bad d user slug c cs ms m e i = elim (Option-cases (select_project d c.id slug)) [
  | inl n ↦ inr (ms, ground arith, i)
  | inr (p, g) ↦ elim (Outcome-cases (search_orgs bad d user slug cs)) [
    | inr (x, f) ↦ absurd (ground arith)
    | inl (rest, f) ↦ pick p g rest f (ground arith)
  ]
]
  where
    pick :
        (p : Project)
        → select_project d c.id slug ≡ some p
        → (rest : List Membership) → search_orgs bad d user slug cs ≡ ok rest
        → ms ≡ found_in user c p ∷ rest
        → ((p : Project) × (select_project d c.id slug ≡ some p) × (m ≡ found_in user c p))
          ⊎ ((rest : List Membership) × (search_orgs bad d user slug cs ≡ ok rest) × In m rest)
    pick p g rest f is = elim (subst (In m) is i) [
      | inl h ↦ inl (p, g, h)
      | inr h ↦ inr (rest, f, h)
    ]

-- Every membership that the search finds is true.
search_orgs-IsTrue :
    (bad : Refuses) (d : Directory) (user : ℕ) (slug : String) (cs : List Candidate)
    (ms : List Membership) (m : Membership)
    → ((c : Candidate) → In c cs → IsCandidate d user c)
    → search_orgs bad d user slug cs ≡ ok ms
    → In m ms
    → IsTrue d user m
search_orgs-IsTrue bad d user slug [] ms m all e i = unfold search_orgs in absurd (ground arith)
search_orgs-IsTrue bad d user slug (c ∷ cs) ms m all e i =
    elim (search_step bad d user slug c cs ms m e i) [
      | inl (p, g, is) ↦
          let (r, ir, org, own, role) = all c (inl refl) in
          let (ip, po) = select_project-In d c.id slug p g in
          record {
            own = ground arith;
            row = (r, ir, ground arith, own, ground arith);
            project = inr (p, ip, ground arith, ground arith);
          }
      | inr (rest, f, later) ↦
          search_orgs-IsTrue bad d user slug cs rest m (λ x ix. all x (inr ix)) f later
    ]

orgs_for-IsCandidate :
    (bad : Refuses) (d : Directory) (user : ℕ) (cs : List Candidate)
    → orgs_for bad d user ≡ ok cs
    → (c : Candidate) → In c cs
    → IsCandidate d user c
unfolding orgs_for
orgs_for-IsCandidate bad d user cs e c i =
    joined-IsCandidate d user d.members (λ r ir. ir) c
      (In-ordered c (joined d user d.members) (subst (In c) is i))
  where
    is : cs ≡ ordered (joined d user d.members)
    is = ground arith

choose-In :
    (slug : String) (ms : List Membership) (m : Membership) → choose slug ms ≡ ok m → In m ms
unfolding choose
choose-In slug [] m e = absurd (ground arith)
choose-In slug (n ∷ []) m e = inl (ground arith)
choose-In slug (n ∷ k ∷ ms) m e = absurd (ground arith)

pub by_project_alone-IsTrue :
    (bad : Refuses) (d : Directory) (user : ℕ) (slug : String) (m : Membership)
    → by_project_alone bad d user slug ≡ ok m
    → IsTrue d user m
unfolding by_project_alone
by_project_alone-IsTrue bad d user slug m e = elim (Outcome-cases (orgs_for bad d user)) [
  | inr (x, f) ↦ absurd (ground arith)
  | inl (cs, f) ↦ elim (Outcome-cases (search_orgs bad d user slug cs)) [
    | inr (x, g) ↦ absurd (ground arith)
    | inl (ms, g) ↦
        search_orgs-IsTrue bad d user slug cs ms m (orgs_for-IsCandidate bad d user cs f) g
          (choose-In slug ms m (ground arith))
  ]
]

-- ===== src/Tenancy/Resolve/Disclosure.antt =====
-- What a request can learn, and what is never guessed.
use cofound.Prelude.{
  ℕ, String, ◌≡◌, ◌≢◌, refl, inl, inr, Bool, false, not, none, some, List, [], ◌∷◌, arith, eq_iff,
  ◌=s◌, In, In-find, find, count, length, is_none, Option-cases,
}
use cofound.Tenancy.Roles.{Action}
use cofound.Tenancy.Directory.{
  Directory, Org, Member, Refuses, Membership, Outcome-cases, ok, is_member, select_org,
  select_project, Candidate, orgs_for, org_by_slug,
}
use cofound.Tenancy.Resolve.{
  by_org_slug, search_orgs, choose, by_project_and_org, by_project_alone, by_project_slug, Request,
  absent, resolve, require, refused,
}

-- No org of that slug has the user as a member; there may be no such org at all.
abbrev pub IsStranger : Directory → ℕ → String → Type 0
IsStranger d user slug =
    (o : Org) (m : Member)
    → In o d.orgs
    → o.slug ≡ slug
    → In m d.members
    → m.org_id ≡ o.id
    → m.user_id ≢ user

select_org-stranger :
    (d : Directory) (user : ℕ) (slug : String)
    → IsStranger d user slug
    → select_org d user slug ≡ none
unfolding select_org is_member
select_org-stranger d user slug h =
    elim (Option-cases (find (λ (x : Org). x.slug =s slug) d.orgs)) [
      | inl n ↦ ground arith
      | inr (o, f) ↦ elim (Option-cases (find (is_member o.id user) d.members)) [
        | inl n ↦ ground arith
        | inr (m, g) ↦
            let (io, eo) = In-find (λ (x : Org). x.slug =s slug) o d.orgs f in
            let (im, em) = In-find (is_member o.id user) m d.members g in
            absurd (h o m io ((eq_iff o.slug slug).0 eo) im (ground arith) (ground arith))
      ]
    ]

-- To someone who is not a member of an org, or when there is no such org, a request about it gets
-- one answer: that the org does not exist.
pub require-stranger :
    (bad : Refuses) (d : Directory) (action : Action) (user : ℕ) (r : Request)
    → bad org_by_slug ≡ false
    → r.org ≢ ""
    → IsStranger d user r.org
    → require bad d action (some user) r ≡ refused (absent "org" r.org)
unfolding require resolve by_org_slug
require-stranger bad d action user r k org h =
    ground (arith, eq_iff r.org "", select_org-stranger d user r.org h)

-- A project named together with an org that the caller is not a member of, or that there is not,
-- does not exist for the caller, whether or not the org has such a project.
pub require-outsider :
    (bad : Refuses) (d : Directory) (action : Action) (user : ℕ) (r : Request)
    → bad org_by_slug ≡ false
    → r.org ≡ ""
    → r.project ≢ ""
    → r.org_header ≢ ""
    → IsStranger d user r.org_header
    → require bad d action (some user) r ≡ refused (absent "project" r.project)
unfolding require resolve by_org_slug by_project_slug by_project_and_org
require-outsider bad d action user r k none_named project hint h = ground (
  arith,
  eq_iff r.org "",
  eq_iff r.project "",
  eq_iff r.org_header "",
  select_org-stranger d user r.org_header h,
)

-- Whether an org of the user has the project.
abbrev pub holds : Directory → String → Candidate → Bool
holds d slug c = not (is_none (select_project d c.id slug))

count-search_orgs :
    (bad : Refuses) (d : Directory) (user : ℕ) (slug : String) (cs : List Candidate)
    (ms : List Membership)
    → search_orgs bad d user slug cs ≡ ok ms
    → length ms ≡ count (holds d slug) cs
unfolding search_orgs count
count-search_orgs bad d user slug [] ms e = ground arith
count-search_orgs bad d user slug (c ∷ cs) ms e = elim (Option-cases (select_project d c.id slug)) [
  | inl n ↦ ground (arith, count-search_orgs bad d user slug cs ms)
  | inr (p, f) ↦ elim (Outcome-cases (search_orgs bad d user slug cs)) [
    | inr (x, g) ↦ absurd (ground arith)
    | inl (rest, g) ↦ ground (arith, count-search_orgs bad d user slug cs rest g)
  ]
]

choose-length :
    (slug : String) (ms : List Membership) (m : Membership) → choose slug ms ≡ ok m → length ms ≡ 1
unfolding choose
choose-length slug [] m e = absurd (ground arith)
choose-length slug (n ∷ []) m e = refl
choose-length slug (n ∷ k ∷ ms) m e = absurd (ground arith)

-- A project that is named without its org resolves only when exactly one org of the caller has a
-- project of that name: with two the request is refused, never served against a guess.
pub by_project_alone_unique :
    (bad : Refuses) (d : Directory) (user : ℕ) (slug : String) (m : Membership)
    → by_project_alone bad d user slug ≡ ok m
    → (cs : List Candidate) × (orgs_for bad d user ≡ ok cs) × (count (holds d slug) cs ≡ 1)
unfolding by_project_alone
by_project_alone_unique bad d user slug m e = elim (Outcome-cases (orgs_for bad d user)) [
  | inr (x, f) ↦ absurd (ground arith)
  | inl (cs, f) ↦ elim (Outcome-cases (search_orgs bad d user slug cs)) [
    | inr (x, g) ↦ absurd (ground arith)
    | inl (ms, g) ↦ (
      cs,
      f,
      omega (
        arith,
        count-search_orgs bad d user slug cs ms g,
        choose-length slug ms m (ground arith),
      ),
    )
  ]
]

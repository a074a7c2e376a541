-- ===== src/Tenancy/Directory.antt =====
-- The tables orgs, org_members and projects as services/api/internal/tenancy/middleware.go reads
-- them, and the statements that it sends. `bad` says which statements the database refuses; a
-- statement runs in a scope of its own, so a failure to begin or commit counts as its refusal.
use Prim.Native.Nat.{Ordering}
use Prim.Native.String.{compare}
use cofound.Prelude.{
  ℕ, String, Bool, ◌&&◌, Option, none, some, List, [], ◌∷◌, ◌==◌, ◌=s◌, find, if◌then◌else◌,
}
pub use cofound.Errs.Outcome.{Outcome, ok, err, Outcome-cases, db_error}
use cofound.Tenancy.Roles.{Role}

pub record Org : Type 0 where
  pub id : ℕ
  pub slug : String

pub record Member : Type 0 where
  pub org_id : ℕ
  pub user_id : ℕ
  pub role : Role

pub record Project : Type 0 where
  pub id : ℕ
  pub org_id : ℕ
  pub slug : String

pub record Directory : Type 0 where
  pub orgs : List Org
  pub members : List Member
  pub projects : List Project

pub data Stmt : Type 0 where
  org_by_slug list_orgs : Stmt
  project_in : ℕ → Stmt

abbrev pub Refuses : Type 0
Refuses = Stmt → Bool

-- Membership; an id of 0 is uuid.Nil.
pub record Membership : Type 0 where
  pub user_id : ℕ
  pub org_id : ℕ
  pub role : Role
  pub org_slug : String
  pub project_id : ℕ

unfoldable pub is_member : ℕ → ℕ → Member → Bool
is_member org user m = m.org_id == org && m.user_id == user

-- The join of orgs and org_members by slug; a slug is unique, and so is a membership.
unfoldable pub select_org : Directory → ℕ → String → Option (Org × Member)
select_org d user slug = elim (find (λ o. o.slug =s slug) d.orgs) [
  | none ↦ none
  | some o ↦ elim (find (is_member o.id user) d.members) [ none ↦ none | some m ↦ some (o, m) ]
]

-- `select id from projects where slug = $1` in the scope of an org.
unfoldable pub is_project : ℕ → String → Project → Bool
is_project org slug p = p.org_id == org && p.slug =s slug

unfoldable pub select_project : Directory → ℕ → String → Option Project
select_project d org slug = find (is_project org slug) d.projects

-- candidate
pub record Candidate : Type 0 where
  pub id : ℕ
  pub slug : String
  pub role : Role

-- The join of org_members and orgs for a user, in the order of the memberships.
unfoldable pub joined : Directory → ℕ → List Member → List Candidate
joined d user [] = []
joined d user (m ∷ ms) =
    let rest = joined d user ms in
    if m.user_id == user
    then elim (find (λ o. o.id == m.org_id) d.orgs) [
      | none ↦ rest
      | some o ↦ record { id = o.id; slug = o.slug; role = m.role } ∷ rest
    ]
    else rest

-- `order by o.slug`, taken in the order of the bytes.
unfoldable pub place : Candidate → List Candidate → List Candidate
place c [] = c ∷ []
place c (x ∷ xs) =
    let later = x ∷ place c xs in
    elim (compare c.slug x.slug) [ Ordering.gt ↦ later | _ ↦ c ∷ x ∷ xs ]

unfoldable pub ordered : List Candidate → List Candidate
unfolding place
ordered [] = []
ordered (c ∷ cs) = place c (ordered cs)

-- orgsFor
unfoldable pub orgs_for : Refuses → Directory → ℕ → Outcome (List Candidate)
orgs_for bad d user =
    if bad list_orgs
    then err (db_error "tenancy: list orgs")
    else ok (ordered (joined d user d.members))

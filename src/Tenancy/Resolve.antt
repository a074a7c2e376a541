-- ===== src/Tenancy/Resolve.antt =====
-- services/api/internal/tenancy/middleware.go: which org a request is about, and whether its role
-- may do the action.
pub mod Search
pub mod Sound
pub mod Disclosure
use Prim.Native.Char.{code}
use Prim.Native.String.{◌++◌}
use cofound.Prelude.{
  ℕ, String, Bool, ◌||◌, not, Option, none, some, List, [], ◌∷◌, ◌==◌, ◌=s◌, map, join,
  if◌then◌else◌,
}
use cofound.Errs.Types.{Fault, GoError, ApiError, leaf, wrapped, typed, text, texts}
use cofound.Errs.Build.{
  not_found, internal, conflict, invalid, forbidden, unauthenticated, with_fix, with_detail,
}
use cofound.Tenancy.Roles.{Role, Action, is_valid, can, minimum_of}
use cofound.Tenancy.Directory.{
  Directory, Org, Member, Project, Refuses, org_by_slug, project_in, Membership, Outcome, ok, err,
  db_error, select_org, select_project, Candidate, orgs_for,
}

-- A role of the database that the code does not know.
abbrev pub unknown_role : GoError
unknown_role = typed (internal (leaf (Fault.driver "tenancy: unknown role")))

abbrev pub absent : String → String → GoError
absent kind slug = typed (not_found kind slug)

-- byOrgSlug
unfoldable pub by_org_slug : Refuses → Directory → ℕ → String → Outcome Membership
by_org_slug bad d user slug =
    if bad org_by_slug
    then err (db_error "tenancy: resolve org")
    else elim (select_org d user slug) [
      | none ↦ err (absent "org" slug)
      | some (o, m) ↦
          if is_valid m.role
          then ok (record {
            user_id = user;
            org_id = o.id;
            role = m.role;
            org_slug = slug;
            project_id = 0;
          })
          else err unknown_role
    ]

-- The loop of byProjectSlug: the memberships whose org has the project.
unfoldable pub search_orgs :
    Refuses → Directory → ℕ → String → List Candidate → Outcome (List Membership)
search_orgs bad d user slug [] = ok []
search_orgs bad d user slug (c ∷ cs) =
    let rest = search_orgs bad d user slug cs in
    if bad (project_in c.id)
    then err (db_error "tenancy: resolve project")
    else elim (select_project d c.id slug) [
      | none ↦ rest
      | some p ↦ elim rest [
        | err e ↦ err e
        | ok ms ↦ ok (
            record {
              user_id = user;
              org_id = c.id;
              role = c.role;
              org_slug = c.slug;
              project_id = p.id;
            }
            ∷ ms)
      ]
    ]

unfoldable pub org_slugs : List Membership → List String
org_slugs [] = []
org_slugs (m ∷ ms) = m.org_slug ∷ org_slugs ms

-- The conflict that names the orgs; `%q` quotes the slug.
unfoldable pub ambiguous : String → List Membership → GoError
ambiguous slug ms = typed (
    with_detail "orgs" (texts (org_slugs ms)) (
      with_fix ("Send the X-Halyard-Org header with one of: " ++ (join ", " (org_slugs ms) ++ "."))
        (conflict "ambiguous_project"
          ("You have a project called \"" ++ (slug ++ "\" in more than one organisation.")))))

-- The switch on how many were found.
unfoldable pub choose : String → List Membership → Outcome Membership
choose slug [] = err (absent "project" slug)
choose slug (m ∷ []) = if is_valid m.role then ok m else err unknown_role
choose slug (m ∷ n ∷ ms) = err (ambiguous slug (m ∷ n ∷ ms))

-- byProjectAndOrg. Any error of the org is reported as an absent project.
unfoldable pub by_project_and_org : Refuses → Directory → ℕ → String → String → Outcome Membership
by_project_and_org bad d user slug org_slug = elim (by_org_slug bad d user org_slug) [
  | err e ↦ err (absent "project" slug)
  | ok m ↦
      if bad (project_in m.org_id)
      then err (db_error "tenancy: resolve project in org")
      else elim (select_project d m.org_id slug) [
        | none ↦ err (absent "project" slug)
        | some p ↦ ok (record m { project_id = p.id })
      ]
]

-- byProjectSlug without a hint
unfoldable pub by_project_alone : Refuses → Directory → ℕ → String → Outcome Membership
by_project_alone bad d user slug = elim (orgs_for bad d user) [
  | err e ↦ err e
  | ok cs ↦ elim (search_orgs bad d user slug cs) [ err e ↦ err e | ok ms ↦ choose slug ms ]
]

-- byProjectSlug
unfoldable pub by_project_slug : Refuses → Directory → ℕ → String → String → Outcome Membership
by_project_slug bad d user slug hint =
    if hint =s "" then by_project_alone bad d user slug else by_project_and_org bad d user slug hint

-- userOnly
unfoldable pub user_only : Refuses → Directory → ℕ → String → Outcome Membership
user_only bad d user hint =
    if hint =s ""
    then ok (record { user_id = user; org_id = 0; role = ""; org_slug = ""; project_id = 0 })
    else by_org_slug bad d user hint

-- What a request says: the route's parameters and the X-Halyard-Org header, empty if absent.
pub record Request : Type 0 where
  pub org : String
  pub project : String
  pub org_header : String

-- resolve
unfoldable pub resolve : Refuses → Directory → ℕ → Request → Outcome Membership
resolve bad d user r =
    if not (r.org =s "")
    then by_org_slug bad d user r.org
    else if not (r.project =s "")
    then by_project_slug bad d user r.project r.org_header
    else user_only bad d user r.org_header

-- What Require does with a request: panic, answer with an error, or call the handler.
pub data Verdict : Type 0 where
  panics : Verdict
  refused : GoError → Verdict
  granted : Membership → Verdict

unfoldable pub needs_org : GoError
needs_org =
    typed
      (with_fix "Send the X-Halyard-Org header." (invalid "That request needs an organisation."))

-- verb: an action with its dots and underscores as spaces.
unfoldable pub verb : Action → String
verb String.[] = ""
verb (String.◌∷◌ c s) = String.◌∷◌ (if code c == b'.' || code c == b'_' then " " else c) (verb s)

unfoldable pub lacks_role : Role → Action → GoError
lacks_role role action =
    let need : String = elim (minimum_of action) [ none ↦ "" | some r ↦ r ] in
    typed (
      with_detail "your_role" (text role) (
        with_detail "required_role" (text need) (
          with_fix ("Ask an owner or admin; this needs the " ++ (need ++ " role or higher."))
            (forbidden (verb action)))))

-- Require, once the membership is resolved.
unfoldable pub enforce : Action → Membership → Verdict
enforce action m =
    if m.org_id == 0
    then refused needs_org
    else if can m.role action
    then granted m
    else refused (lacks_role m.role action)

-- Require, where `caller` is the user that Authenticate left in the context.
unfoldable pub require : Refuses → Directory → Action → Option ℕ → Request → Verdict
require bad d action none r = panics
require bad d action (some user) r = elim (resolve bad d user r) [
  | err e ↦ refused e
  | ok m ↦ enforce action m
]

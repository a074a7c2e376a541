-- ===== src/V1/Projects/Store.antt =====
-- The tables projects, branches, template_versions and audit_log as services/api/internal/v1 reads and
-- writes them in a scoped transaction. Row-level security compares a row's org with the setting
-- app.org_id, as migrations 00013 and 00016 say; `text_of` is how a uuid prints. A slug is a list of
-- character codes.
use cofound.Prelude.{
  ℕ, ◌+◌, String, Bool, ◌&&◌, ◌||◌, not, Option, none, some, List, ◌==◌, ◌=s◌, find, and_last,
  if◌then◌else◌,
}
use cofound.Errs.Types.{Fault, GoError, leaf, typed}
use cofound.Errs.Outcome.{Outcome, ok, err}
use cofound.Errs.Build.{invalid, with_fix}
use cofound.Tenancy.Directory.{Membership}
use cofound.Db.Scope.{Settings, Conn, Ran, returned, panicked, Plain, plain, scope_org_and_user}
use cofound.Db.Scope as Scope
use cofound.Config.Parse.{same_codes}

-- A row of projects.
pub record ProjectRow : Type 0 where
  pub id : ℕ
  pub org_id : ℕ
  pub name : String
  pub slug : List ℕ
  pub template : Option ℕ
  pub default_branch : String
  pub git_authority : String
  pub archived_at : Option ℕ
  pub created_at : ℕ

-- A row of branches.
pub record Branch : Type 0 where
  pub id : ℕ
  pub project_id : ℕ
  pub org_id : ℕ
  pub name : String
  pub head_sha : Option String

-- The audited actions, with the fields of their targets.
pub data Event : Type 0 where
  project_create : ℕ → List ℕ → String → Event
  project_archive : ℕ → List ℕ → Event

-- A row of audit_log. The ip and the user agent are left out.
pub record Audited : Type 0 where
  pub org_id : ℕ
  pub actor : ℕ
  pub event : Event

-- The tables, and the next id that the database would generate. A template version has an id, and
-- whether its image is ready.
pub record Tables : Type 0 where
  pub projects : List ProjectRow
  pub branches : List Branch
  pub templates : List (ℕ × Bool)
  pub log : List Audited
  pub next_id : ℕ

pub data Stmt : Type 0 where
  select_template insert_project insert_branch : Stmt
  select_projects select_project select_branches archive_project record_audit : Stmt

abbrev pub Refuses : Type 0
Refuses = Stmt → Bool

abbrev pub refusal : String → GoError
refusal s = leaf (Fault.driver s)

abbrev pub violation : GoError
violation = leaf Fault.unique_violation

abbrev pub fails : {D A : Type 0} → D → GoError → D × Ran A
fails w e = (w, returned (err e))

-- A statement of a transaction that stops it with an error, or goes on with a value.
unfoldable pub then_do : {W A B : Type 0} → W × Outcome A → (A → W → W × Ran B) → W × Ran B
then_do (w, err e) f = (w, returned (err e))
then_do (w, ok a) f = f a w

-- Resolver.Scoped
unfoldable pub scoped :
    {A : Type 0}
    → Scope.Refuses
    → (ℕ → String)
    → Membership
    → Plain Tables A
    → Conn Tables
    → Conn Tables × Ran A
unfolding scope_org_and_user
scoped bad text_of m fn c =
    if m.org_id == 0
    then (
      c,
      returned (
          err (
            typed (
              with_fix "Send the X-Halyard-Org header."
                (invalid "That request needs an organisation.")))),
    )
    else scope_org_and_user bad (text_of m.org_id) (text_of m.user_id) (plain fn) c

-- The policy of a tenant's table: the row's org is that of the setting.
unfoldable pub in_scope : (ℕ → String) → Settings → ℕ → Bool
in_scope text_of s org = text_of org =s s.org

unfoldable pub same_name : ℕ → List ℕ → ProjectRow → Bool
same_name org slug p = p.org_id == org && same_codes p.slug slug

unfoldable pub same_branch : ℕ → String → Branch → Bool
same_branch project name b = b.project_id == project && b.name =s name

-- The row that the insert of a project makes, with the defaults of its columns.
unfoldable pub new_project : ℕ → String → List ℕ → Option ℕ → ℕ → ℕ → ProjectRow
new_project org name slug template now i = record {
  id = i;
  org_id = org;
  name = name;
  slug = slug;
  template = template;
  default_branch = "main";
  git_authority = "internal";
  archived_at = none;
  created_at = now;
}

unfoldable pub new_branch : ℕ → ℕ → String → ℕ → Branch
new_branch project org name i = record {
  id = i;
  project_id = project;
  org_id = org;
  name = name;
  head_sha = none;
}

module _ (bad : Refuses) (text_of : ℕ → String) where
  -- Audit.RecordTx
  unfoldable pub record_event : Settings → ℕ → ℕ → Event → Tables → Tables × Outcome (Unit {0})
  unfolding in_scope
  record_event s org actor event w =
      if bad record_audit || not (in_scope text_of s org)
      then (w, err (refusal "audit: record"))
      else (
        record w { log = and_last w.log (record { org_id = org; actor = actor; event = event }) },
        ok tt,
      )

  -- `insert into projects … returning id, created_at, default_branch`
  unfoldable pub insert_project_row :
      Settings → ℕ → String → List ℕ → Option ℕ → ℕ → Tables → Tables × Outcome ProjectRow
  unfolding same_name in_scope find new_project
  insert_project_row s org name slug template now w =
      if bad insert_project || not (in_scope text_of s org)
      then (w, err (refusal "insert project"))
      else elim (find (same_name org slug) w.projects) [
        | some p ↦ (w, err violation)
        | none ↦
            let p = new_project org name slug template now w.next_id in
            (record w { projects = and_last w.projects p; next_id = w.next_id + 1 }, ok p)
      ]

  -- `insert into branches … returning id`
  unfoldable pub insert_branch_row : Settings → ℕ → ℕ → String → Tables → Tables × Outcome Branch
  unfolding same_branch in_scope find new_branch
  insert_branch_row s project org name w =
      if bad insert_branch || not (in_scope text_of s org)
      then (w, err (refusal "insert branch"))
      else elim (find (same_branch project name) w.branches) [
        | some b ↦ (w, err violation)
        | none ↦
            let b = new_branch project org name w.next_id in
            (record w { branches = and_last w.branches b; next_id = w.next_id + 1 }, ok b)
      ]

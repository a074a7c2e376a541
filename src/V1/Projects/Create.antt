-- ===== src/V1/Projects/Create.antt =====
-- services/api/internal/v1/projects.go: createProject. What a body decodes to, and how a uuid is parsed,
-- are arguments.

use cofound.Prelude.{
  ℕ, String, Bool, false, ◌&&◌, ◌||◌, not, Option, none, some, List, [], ◌∷◌, ◌==◌, ◌=s◌, find,
  trim_space, if◌then◌else◌,
}
use cofound.Errs.Code.{codes}
use cofound.Errs.Types.{GoError, typed, text}
use cofound.Errs.Outcome.{Outcome, ok, err}
use cofound.Errs.Build.{
  invalid, invalid_field, not_found, conflict, with_fix, with_detail, with_cause,
}
use cofound.Tenancy.Directory.{Membership}
use cofound.V1.Members.Store.{is_unique_violation}
use cofound.V1.Slugs.{slugify, valid_slug}
use cofound.Db.Scope.{Settings, Conn, Ran, returned, panicked, Plain}
use cofound.Db.Scope as Scope
use cofound.V1.Projects.Store.{
  ProjectRow, Branch, project_create, Tables, select_template, Refuses, refusal, then_do, scoped,
  record_event, insert_project_row, insert_branch_row,
}

-- The body of POST /v1/projects.
pub record CreateBody : Type 0 where
  pub org_id : String
  pub name : String
  pub template_version_id : Option String
  pub prompt : Option String

-- What is left of a body that passes: the name, the slug, and the template version.
pub record Wanted : Type 0 where
  pub name : String
  pub slug : List ℕ
  pub template : Option ℕ

abbrev pub has_template : CreateBody → Bool
has_template b = elim b.template_version_id [ none ↦ false | some t ↦ not (t =s "") ]

abbrev pub has_prompt : CreateBody → Bool
has_prompt b = elim b.prompt [ none ↦ false | some p ↦ not (trim_space p =s "") ]

unfoldable pub both_or_neither : CreateBody → Bool
both_or_neither b = (has_template b && has_prompt b) || (not (has_template b) && not (has_prompt b))

unfoldable pub raw_name : CreateBody → String
raw_name b = if has_prompt b && b.name =s "" then "Untitled project" else b.name

abbrev pub bad_field : String → String → Outcome Wanted
bad_field f why = err (typed (invalid_field f why))

-- The template version that a body names, parsed.
unfoldable pub parsed_template : (String → Option ℕ) → CreateBody → Option (Option ℕ)
parsed_template parse b =
    if has_template b
    then elim b.template_version_id [
      | none ↦ none
      | some t ↦ elim (parse t) [ none ↦ none | some i ↦ some (some i) ]
    ]
    else some none

-- createProject, from the name on.
unfoldable pub judge_name : (String → Option ℕ) → CreateBody → String → Outcome Wanted
unfolding slugify valid_slug parsed_template
judge_name parse b name =
    if name =s ""
    then bad_field "name" "is required"
    else if not (valid_slug (slugify (codes name)))
    then bad_field "name" "must contain letters or digits so a project slug can be derived from it"
    else elim (parsed_template parse b) [
      | none ↦ bad_field "template_version_id" "must be a uuid"
      | some t ↦ ok (record { name = name; slug = slugify (codes name); template = t })
    ]

-- createProject, from the comparison of the body's org with the caller's on.
unfoldable pub judge_org : (String → Option ℕ) → Membership → CreateBody → Bool → Outcome Wanted
unfolding judge_name both_or_neither raw_name
judge_org parse m b same =
    if not same
    then err (typed (not_found "org" ""))
    else if both_or_neither b
    then err (
        typed (
          with_fix "Pick a template, or describe what you want built."
            (invalid "Send either a template version or a prompt, not both.")))
    else judge_name parse b (trim_space (raw_name b))

-- createProject, up to the transaction.
unfoldable pub judge_create : (String → Option ℕ) → Membership → CreateBody → Outcome Wanted
unfolding judge_org
judge_create parse m b = elim (parse b.org_id) [
  | none ↦ bad_field "org_id" "must be a uuid"
  | some org ↦ judge_org parse m b (org == m.org_id)
]

-- What the handler answers with: the project and its branch.
abbrev pub Shown : Type 0
Shown = ProjectRow × List Branch

unfoldable pub is_template : ℕ → ℕ × Bool → Bool
is_template i t = t.0 == i

abbrev pub taken : GoError → GoError
taken e = typed (
    with_cause e (
      with_detail "field" (text "name") (
        with_fix "Pick a different name."
          (conflict "conflict" "That project name is already taken in this organisation."))))

-- The end of createProject.
unfoldable pub answer_create : Conn Tables × Ran Shown → Conn Tables × Ran Shown
unfolding is_unique_violation
answer_create (c, panicked) = (c, panicked)
answer_create (c, returned (ok a)) = (c, returned (ok a))
answer_create (c, returned (err e)) =
    (c, returned (err (if is_unique_violation e then taken e else e)))

module _ (bad : Refuses) (text_of : ℕ → String) where
  -- The check that a named template version is known.
  unfoldable pub check_template : Option ℕ → Tables → Tables × Outcome (Unit {0})
  unfolding is_template find
  check_template none w = (w, ok tt)
  check_template (some i) w =
      if bad select_template
      then (w, err (refusal "select template"))
      else elim (find (is_template i) w.templates) [
        | none ↦ (
          w,
          err (
              typed (invalid_field "template_version_id" "does not name a known template version")),
        )
        | some t ↦ (w, ok tt)
      ]

  unfoldable pub create_audit :
      Membership → ProjectRow → Settings → Branch → Tables → Tables × Ran Shown
  unfolding then_do record_event
  create_audit m p s b w =
      then_do (record_event bad text_of s m.org_id m.user_id (project_create p.id p.slug p.name) w)
        (λ u v. (v, returned (ok (p, b ∷ []))))

  unfoldable pub create_branch : Membership → Settings → ProjectRow → Tables → Tables × Ran Shown
  unfolding then_do insert_branch_row create_audit
  create_branch m s p w =
      then_do (insert_branch_row bad text_of s p.id m.org_id p.default_branch w)
        (create_audit m p s)

  unfoldable pub create_row :
      Membership → Wanted → ℕ → Settings → Unit {0} → Tables → Tables × Ran Shown
  unfolding then_do insert_project_row create_branch
  create_row m k now s u w =
      then_do (insert_project_row bad text_of s m.org_id k.name k.slug k.template now w)
        (create_branch m s)

  -- The transaction of createProject.
  unfoldable pub create_tx : Membership → Wanted → ℕ → Plain Tables Shown
  unfolding then_do check_template create_row
  create_tx m k now s w = then_do (check_template k.template w) (create_row m k now s)

  unfoldable pub create_wanted :
      Scope.Refuses → Membership → ℕ → Conn Tables → Outcome Wanted → Conn Tables × Ran Shown
  unfolding answer_create scoped create_tx
  create_wanted tx_bad m now c (err e) = (c, returned (err e))
  create_wanted tx_bad m now c (ok k) =
      answer_create (scoped tx_bad text_of m (create_tx m k now) c)

  -- createProject
  unfoldable pub create_project :
      Scope.Refuses
      → (String → Option ℕ)
      → Membership
      → CreateBody
      → ℕ
      → Conn Tables
      → Conn Tables × Ran Shown
  unfolding create_wanted judge_create
  create_project tx_bad parse m b now c = create_wanted tx_bad m now c (judge_create parse m b)

-- ===== src/V1/Orgs.antt =====
-- services/api/internal/v1/orgs.go: createOrg, over the tables orgs, org_members and audit_log, with
-- the policies of migration 00016. What a body decodes to, and the id that uuid.New gives, are
-- arguments.
pub mod Written
pub mod Owned
use cofound.Prelude.{
  ℕ, ◌+◌, String, Bool, true, false, ◌&&◌, ◌||◌, not, Option, none, some, List, [], ◌==◌, ◌=s◌,
  find, is_none, and_last, trim_space, if◌then◌else◌,
}
use cofound.Errs.Code.{codes}
use cofound.Errs.Types.{GoError, typed, text}
use cofound.Errs.Outcome.{Outcome, ok, err}
use cofound.Errs.Build.{invalid_field, unauthenticated, conflict, with_fix, with_detail, with_cause}
use cofound.Config.Parse.{same_codes}
use cofound.Tenancy.Directory.{Member, is_member}
use cofound.Tenancy.Roles.{role_owner}
use cofound.V1.Members.Store.{is_unique_violation}
use cofound.V1.Slugs.{slugify, valid_slug}
use cofound.Db.Scope.{Settings, Conn, Ran, returned, panicked, Plain, plain, scope_org_and_user}
use cofound.Db.Scope as Scope
use cofound.V1.Projects.Store.{refusal, violation, then_do, in_scope}

-- apiv1.CreateOrgRequest
pub record OrgBody : Type 0 where
  pub name : String
  pub slug : Option String

pub record OrgRow : Type 0 where
  pub id : ℕ
  pub name : String
  pub slug : List ℕ
  pub created_at : ℕ

-- A row of audit_log for the creation of an org.
pub record OrgCreated : Type 0 where
  pub org_id : ℕ
  pub actor : ℕ
  pub slug : List ℕ
  pub name : String

pub record OrgTables : Type 0 where
  pub orgs : List OrgRow
  pub members : List Member
  pub log : List OrgCreated

pub data OrgStmt : Type 0 where
  insert_org insert_owner record_created : OrgStmt

-- What is left of a body that passes.
pub record Named : Type 0 where
  pub name : String
  pub slug : List ℕ

unfoldable pub slug_of : OrgBody → String → List ℕ
unfolding slugify
slug_of b name = elim b.slug [
  | none ↦ slugify (codes name)
  | some s ↦ if s =s "" then slugify (codes name) else codes s
]

-- createOrg, from the name on.
unfoldable pub judge_slug : String → List ℕ → Outcome Named
unfolding valid_slug
judge_slug name slug =
    if name =s ""
    then err (typed (invalid_field "name" "is required"))
    else if not (valid_slug slug)
    then err (
        typed (
          invalid_field "slug"
            "must be lowercase letters, digits and hyphens, and at most 63 characters"))
    else ok (record { name = name; slug = slug })

unfoldable pub judge_body : OrgBody → Outcome Named
unfolding judge_slug slug_of
judge_body b = judge_slug (trim_space b.name) (slug_of b (trim_space b.name))

unfoldable pub same_org : ℕ → List ℕ → OrgRow → Bool
same_org i slug o = o.id == i || same_codes o.slug slug

-- The policy of org_members: a row about the user of the setting, or in its org.
unfoldable pub admits_member : (ℕ → String) → Settings → Member → Bool
unfolding in_scope
admits_member text_of s m = text_of m.user_id =s s.user || in_scope text_of s m.org_id

-- The policy of orgs: the org of the setting, or one of which its user is a member.
unfoldable pub is_of_user : (ℕ → String) → Settings → ℕ → Member → Bool
is_of_user text_of s org m = m.org_id == org && text_of m.user_id =s s.user

unfoldable pub admits_org : (ℕ → String) → Settings → List Member → ℕ → Bool
unfolding in_scope is_of_user find
admits_org text_of s ms org =
    in_scope text_of s org || not (is_none (find (is_of_user text_of s org) ms))

abbrev pub new_org : Named → ℕ → ℕ → OrgRow
new_org k org now = record { id = org; name = k.name; slug = k.slug; created_at = now }

abbrev pub owner : ℕ → ℕ → Member
owner org user = record { org_id = org; user_id = user; role = role_owner }

abbrev pub org_created : Named → ℕ → ℕ → OrgCreated
org_created k org user = record { org_id = org; actor = user; slug = k.slug; name = k.name }

abbrev pub org_taken : GoError → GoError
org_taken e = typed (
    with_cause e (
      with_detail "field" (text "slug") (
        with_fix "Pick a different name, or set a slug explicitly."
          (conflict "conflict" "That organisation name is already taken."))))

unfoldable pub answer_org : Conn OrgTables × Ran OrgRow → Conn OrgTables × Ran OrgRow
unfolding is_unique_violation
answer_org (c, panicked) = (c, panicked)
answer_org (c, returned (ok a)) = (c, returned (ok a))
answer_org (c, returned (err e)) =
    (c, returned (err (if is_unique_violation e then org_taken e else e)))

module _ (bad : OrgStmt → Bool) (text_of : ℕ → String) (s : Settings) where
  -- `insert into orgs … returning created_at`
  unfoldable pub insert_org_row : Named → ℕ → ℕ → OrgTables → OrgTables × Outcome OrgRow
  unfolding admits_org same_org find
  insert_org_row k org now w =
      if bad insert_org || not (admits_org text_of s w.members org)
      then (w, err (refusal "insert org"))
      else elim (find (same_org org k.slug) w.orgs) [
        | some o ↦ (w, err violation)
        | none ↦ (record w { orgs = and_last w.orgs (new_org k org now) }, ok (new_org k org now))
      ]

  -- `insert into org_members …`
  unfoldable pub insert_owner_row : ℕ → ℕ → OrgTables → OrgTables × Outcome (Unit {0})
  unfolding admits_member is_member find
  insert_owner_row org user w =
      if bad insert_owner || not (admits_member text_of s (owner org user))
      then (w, err (refusal "insert member"))
      else elim (find (is_member org user) w.members) [
        | some m ↦ (w, err violation)
        | none ↦ (record w { members = and_last w.members (owner org user) }, ok tt)
      ]

  -- Audit.RecordTx
  unfoldable pub record_org : Named → ℕ → ℕ → OrgTables → OrgTables × Outcome (Unit {0})
  unfolding in_scope
  record_org k org user w =
      if bad record_created || not (in_scope text_of s org)
      then (w, err (refusal "audit: record"))
      else (record w { log = and_last w.log (org_created k org user) }, ok tt)

  unfoldable pub org_audit : Named → ℕ → ℕ → OrgRow → Unit {0} → OrgTables → OrgTables × Ran OrgRow
  unfolding then_do record_org
  org_audit k org user o u w = then_do (record_org k org user w) (λ x v. (v, returned (ok o)))

  unfoldable pub org_owner : Named → ℕ → ℕ → OrgRow → OrgTables → OrgTables × Ran OrgRow
  unfolding then_do insert_owner_row org_audit
  org_owner k org user o w = then_do (insert_owner_row org user w) (org_audit k org user o)

  -- The transaction of createOrg.
  unfoldable pub org_tx : Named → ℕ → ℕ → ℕ → OrgTables → OrgTables × Ran OrgRow
  unfolding then_do insert_org_row org_owner
  org_tx k org user now w = then_do (insert_org_row k org now w) (org_owner k org user)

module _ (bad : OrgStmt → Bool) (tx_bad : Scope.Refuses) (text_of : ℕ → String) where
  unfoldable pub create_named :
      ℕ → ℕ → ℕ → Conn OrgTables → Outcome Named → Conn OrgTables × Ran OrgRow
  unfolding answer_org scope_org_and_user org_tx
  create_named user org now c (err e) = (c, returned (err e))
  create_named user org now c (ok k) = answer_org (
      scope_org_and_user tx_bad (text_of org) (text_of user)
        (plain (λ s w. org_tx bad text_of s k org user now w)) c)

  -- createOrg
  unfoldable pub create_org :
      Option ℕ → OrgBody → ℕ → ℕ → Conn OrgTables → Conn OrgTables × Ran OrgRow
  unfolding create_named judge_body
  create_org none b org now c = (c, returned (err (typed unauthenticated)))
  create_org (some user) b org now c = create_named user org now c (judge_body b)

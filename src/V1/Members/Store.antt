-- ===== src/V1/Members/Store.antt =====
-- The tables that services/api/internal/v1/invites.go changes: org_members, invites and audit_log;
-- and Scoped, of services/api/internal/tenancy/middleware.go, around a handler's transaction. `bad`
-- says which statements the database refuses. An id of 0 is uuid.Nil.
use cofound.Prelude.{
  ℕ, String, Bool, ◌&&◌, Option, none, some, List, [], ◌∷◌, ◌++◌, ◌==◌, ◌=s◌, count, if◌then◌else◌,
}
use cofound.Errs.Types.{Fault, GoError, leaf, typed, root}
use cofound.Errs.Build.{invalid, with_fix}
use cofound.Auth.Token.{Hash}
use cofound.Tenancy.Roles.{Role, role_owner}
use cofound.Tenancy.Directory.{Member, Outcome, ok, err}

-- A row of invites.
pub record Invite : Type 0 where
  pub id : ℕ
  pub org_id : ℕ
  pub email : String
  pub role : Role
  pub token_hash : Hash
  pub invited_by : ℕ
  pub expires_at : ℕ
  pub accepted_at : Option ℕ
  pub accepted_by : Option ℕ
  pub revoked_at : Option ℕ

-- The audited actions, with the fields of their targets.
pub data Event : Type 0 where
  member_invite : ℕ → String → Role → Event
  invite_accept : ℕ → Role → Event
  member_remove : ℕ → Role → Event
  role_change : ℕ → Role → Role → Event

-- A row of audit_log. The ip and the user agent are left out.
pub record Audited : Type 0 where
  pub org_id : ℕ
  pub actor : ℕ
  pub event : Event

-- The tables, and the next id that the database would generate for an invite.
pub record Tables : Type 0 where
  pub members : List Member
  pub invites : List Invite
  pub log : List Audited
  pub next_id : ℕ

pub data Stmt : Type 0 where
  begin_tx commit_tx insert_invite select_invite consume_invite upsert_member : Stmt
  select_role count_owners delete_member update_role record_audit : Stmt

abbrev pub Refuses : Type 0
Refuses = Stmt → Bool

abbrev pub refusal : String → GoError
refusal s = leaf (Fault.driver s)

-- A transaction: an error rolls it back.
unfoldable pub finish {ℓ} :
    {A : Type ℓ} → Refuses → Tables → Tables × Outcome A → Tables × Outcome A
finish bad w (t, err e) = (w, err e)
finish bad w (t, ok a) = if bad commit_tx then (w, err (refusal "commit")) else (t, ok a)

unfoldable pub transact {ℓ} :
    {A : Type ℓ} → Refuses → Tables → Tables × Outcome A → Tables × Outcome A
transact bad w r = if bad begin_tx then (w, err (refusal "begin")) else finish bad w r

-- Resolver.Scoped, in the org of the membership.
unfoldable pub scoped {ℓ} :
    {A : Type ℓ} → Refuses → ℕ → Tables → Tables × Outcome A → Tables × Outcome A
scoped bad org w r =
    if org == 0
    then (
      w,
      err (
          typed (
            with_fix "Send the X-Halyard-Org header."
              (invalid "That request needs an organisation."))),
    )
    else transact bad w r

-- `where org_id = $1 and role = 'owner'`
unfoldable pub is_owner : ℕ → Member → Bool
is_owner org m = m.org_id == org && role_owner =s m.role

unfoldable pub owners : ℕ → List Member → ℕ
owners org = count (is_owner org)

-- db.IsUniqueViolation
unfoldable pub is_unique_violation : GoError → Bool
is_unique_violation e = elim (root e) [
  | none ↦ Bool.false
  | some f ↦ elim f [ Fault.unique_violation ↦ Bool.true | _ ↦ Bool.false ]
]

-- Audit.RecordTx, as the last statement of a transaction.
unfoldable pub record_event {ℓ} :
    {A : Type ℓ} → Refuses → ℕ → ℕ → Event → Tables → A → Tables × Outcome A
record_event bad org actor event w a = if bad record_audit then (w, err (refusal "record")) else (
  record w { log = w.log ++ record { org_id = org; actor = actor; event = event } ∷ [] },
  ok a,
)

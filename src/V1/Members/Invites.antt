-- ===== src/V1/Members/Invites.antt =====
-- services/api/internal/v1/invites.go: createInvite and acceptInvite, from the membership that Require left in the
-- request to the tables and the answer. A path or a body that is not decoded is an argument.
use cofound.Prelude.{
  ℕ, ◌+◌, String, Bool, ◌&&◌, ◌||◌, not, Option, none, some, List, [], ◌∷◌, ◌++◌, ltb, ◌==◌, ◌=s◌,
  is_none, find, update, count, if◌then◌else◌,
}
use cofound.Errs.Types.{Fault, GoError, leaf, typed, text}
use cofound.Errs.Build.{
  invalid_field, forbidden, conflict, unauthenticated, with_fix, with_detail, with_message,
  with_cause,
}
use cofound.Auth.Token.{Hash}
use cofound.Tenancy.Roles.{Role, role_owner, is_valid}
use cofound.Tenancy.Directory.{Member, Membership, Outcome, ok, err, is_member}
use cofound.V1.Members.Store.{
  record_event, Invite, Tables, Refuses, refusal, transact, scoped, is_unique_violation,
  member_invite, invite_accept, insert_invite, select_invite, consume_invite, upsert_member,
}

unfoldable pub is_open : Invite → Bool
is_open i = is_none i.accepted_at && is_none i.revoked_at

-- The index of the live invites, by org and address.
unfoldable pub same_address : ℕ → String → Invite → Bool
same_address org email i = i.org_id == org && i.email =s email && is_open i

abbrev pub violation : GoError
violation = leaf Fault.unique_violation

unfoldable pub new_invite : Membership → String → Role → Hash → ℕ → ℕ → Invite
new_invite m email role hash expires i = record {
  id = i;
  org_id = m.org_id;
  email = email;
  role = role;
  token_hash = hash;
  invited_by = m.user_id;
  expires_at = expires;
  accepted_at = none;
  accepted_by = none;
  revoked_at = none;
}

-- The insert and the audit row of createInvite.
unfoldable pub add_invite : Refuses → Membership → Invite → Tables → Tables × Outcome Invite
add_invite bad m i w =
    record_event bad m.org_id m.user_id (member_invite i.id i.email i.role)
      (record w { invites = w.invites ++ i ∷ []; next_id = w.next_id + 1 }) i

unfoldable pub is_taken : ℕ → String → Hash → List Invite → Bool
is_taken org email hash is =
    not (is_none (find (same_address org email) is))
    || not (is_none (find (λ i. i.token_hash == hash) is))

-- The transaction of createInvite.
unfoldable pub invite_tx :
    Refuses → Membership → String → Role → Hash → ℕ → ℕ → Tables → Tables × Outcome Invite
invite_tx bad m email role hash now ttl w =
    if bad insert_invite || not (ltb now (now + ttl))
    then (w, err (refusal "insert invite"))
    else if is_taken m.org_id email hash w.invites
    then (w, err violation)
    else add_invite bad m (new_invite m email role hash (now + ttl) w.next_id) w

unfoldable pub open_already : GoError → GoError
open_already e =
    if is_unique_violation e
    then typed (
        with_cause e (
          with_fix "Revoke the existing invitation first, or wait for it to expire."
            (conflict "conflict" "That address already has an open invitation.")))
    else e

unfoldable pub answer {ℓ} : {A : Type ℓ} → Tables × Outcome A → Tables × Outcome A
answer (w, ok a) = (w, ok a)
answer (w, err e) = (w, err (open_already e))

unfoldable pub invite_owner : Role → GoError
invite_owner mine = typed (
    with_detail "your_role" (text mine) (
      with_detail "required_role" (text role_owner)
        (with_fix "Ask an owner to send this invitation." (forbidden "invite an owner"))))

-- createInvite, from NewToken on; `hash` is that of the new token.
unfoldable pub send_invite :
    Refuses → Membership → String → Role → Outcome Hash → ℕ → ℕ → Tables → Tables × Outcome Invite
send_invite bad m email role (err e) now ttl w = (w, err e)
send_invite bad m email role (ok hash) now ttl w =
    answer (scoped bad m.org_id w (invite_tx bad m email role hash now ttl w))

-- createInvite; `email` is what NormaliseEmail gives.
unfoldable pub create_invite :
    Refuses
    → Membership
    → Outcome String
    → Role
    → Outcome Hash
    → ℕ
    → ℕ
    → Tables
    → Tables × Outcome Invite
create_invite bad m (err e) role hash now ttl w = (w, err e)
create_invite bad m (ok email) role hash now ttl w =
    if not (is_valid role)
    then (w, err (typed (invalid_field "role" "must be owner, admin, editor or viewer")))
    else if role_owner =s role && not (role_owner =s m.role)
    then (w, err (invite_owner m.role))
    else send_invite bad m email role hash now ttl w

unfoldable pub not_valid : GoError
not_valid = typed (
    with_fix "Ask for a new invitation."
      (with_message "That invitation link is no longer valid." unauthenticated))

unfoldable pub already_used : GoError
already_used = typed (with_message "That invitation has already been used." unauthenticated)

-- `where token_hash = $1 and accepted_at is null and revoked_at is null and expires_at > now()`
unfoldable pub is_redeemable : Hash → ℕ → Invite → Bool
is_redeemable h now i = i.token_hash == h && is_open i && ltb now i.expires_at

-- The policy of invites: a row of the org in the settings of the connection.
unfoldable pub is_visible : Option ℕ → Invite → Bool
is_visible org i = elim org [ none ↦ Bool.false | some o ↦ i.org_id == o ]

-- The lookup of acceptInvite, on a connection whose settings name an org, or none.
unfoldable pub find_invite : Refuses → Option ℕ → Hash → ℕ → Tables → Outcome Invite
unfolding is_visible
find_invite bad seen h now w =
    if bad select_invite
    then err (refusal "select invite")
    else elim (find (λ i. is_visible seen i && is_redeemable h now i) w.invites) [
      | none ↦ err not_valid
      | some i ↦ ok i
    ]

-- `where id = $1 and accepted_at is null and revoked_at is null`
unfoldable pub is_spendable : ℕ → Invite → Bool
is_spendable id i = i.id == id && is_open i

unfoldable pub consume : ℕ → ℕ → ℕ → List Invite → List Invite
consume id user now =
    update (is_spendable id) (λ i. record i { accepted_at = some now; accepted_by = some user })

-- `insert into org_members … on conflict (org_id, user_id) do update set role = excluded.role`
unfoldable pub upsert : ℕ → ℕ → Role → List Member → List Member
upsert org user role ms =
    if is_none (find (is_member org user) ms)
    then ms ++ record { org_id = org; user_id = user; role = role } ∷ []
    else update (is_member org user) (λ r. record r { role = role }) ms

unfoldable pub redeem_tx : Refuses → ℕ → Invite → ℕ → Tables → Tables × Outcome (Unit {0})
redeem_tx bad user i now w =
    if bad consume_invite
    then (w, err (refusal "consume invite"))
    else if count (is_spendable i.id) w.invites == 0
    then (w, err already_used)
    else if bad upsert_member
    then (w, err (refusal "upsert member"))
    else record_event bad i.org_id user (invite_accept i.id i.role)
        (record w {
          invites = consume i.id user now w.invites;
          members = upsert i.org_id user i.role w.members;
        })
        tt

-- The transaction of acceptInvite, for the invite that the lookup found.
unfoldable pub redeem : Refuses → ℕ → Invite → ℕ → Tables → Tables × Outcome (Unit {0})
redeem bad user i now w = transact bad w (redeem_tx bad user i now w)

-- acceptInvite, for the parsed token's hash; `none` when it does not parse. The connection that it
-- takes from the pool has the settings that it was left with: `seen` is the org that they name.
unfoldable pub accept_invite :
    Refuses → Option ℕ → ℕ → Option Hash → ℕ → Tables → Tables × Outcome (Unit {0})
accept_invite bad seen user none now w = (w, err not_valid)
accept_invite bad seen user (some h) now w = elim (find_invite bad seen h now w) [
  | err e ↦ (w, err e)
  | ok i ↦ redeem bad user i now w
]

-- ===== src/V1/Members/Changes.antt =====
-- services/api/internal/v1/invites.go: removeMember and changeMemberRole, from the membership that Require left in the
-- request to the tables and the answer. A path or a body that is not decoded is an argument.
use cofound.Prelude.{
  ℕ, String, ◌&&◌, ◌||◌, not, Option, none, some, List, leb, ◌=s◌, find, update, delete,
  if◌then◌else◌,
}
use cofound.Errs.Types.{GoError, typed}
use cofound.Errs.Build.{invalid_field, forbidden, conflict, not_found, with_fix}
use cofound.Tenancy.Roles.{Role, role_owner, is_valid}
use cofound.Tenancy.Directory.{Member, Membership, Outcome, ok, err, is_member}
use cofound.V1.Members.Store.{
  record_event, Tables, Refuses, refusal, scoped, owners, member_remove, role_change, select_role,
  count_owners, delete_member, update_role,
}

unfoldable pub last_owner : String → GoError
last_owner fix =
    typed (with_fix fix (conflict "last_owner" "An organisation must keep at least one owner."))

-- The delete and the audit row of removeMember.
unfoldable pub do_remove : Refuses → Membership → ℕ → Role → Tables → Tables × Outcome (Unit {0})
do_remove bad m subject role w =
    if bad delete_member
    then (w, err (refusal "delete member"))
    else record_event bad m.org_id m.user_id (member_remove subject role)
        (record w { members = delete (is_member m.org_id subject) w.members }) tt

-- The transaction of removeMember.
unfoldable pub remove_tx : Refuses → Membership → ℕ → Tables → Tables × Outcome (Unit {0})
remove_tx bad m subject w =
    if bad select_role
    then (w, err (refusal "select role"))
    else elim (find (is_member m.org_id subject) w.members) [
      | none ↦ (w, err (typed (not_found "member" "")))
      | some r ↦
          if role_owner =s r.role && not (role_owner =s m.role)
          then (w, err (typed (with_fix "Ask an owner to do this." (forbidden "remove an owner"))))
          else if role_owner =s r.role && bad count_owners
          then (w, err (refusal "count owners"))
          else if role_owner =s r.role && leb (owners m.org_id w.members) 1
          then (w, err (last_owner "Make someone else an owner first, then remove this one."))
          else do_remove bad m subject r.role w
    ]

abbrev pub bad_uuid : GoError
bad_uuid = typed (invalid_field "user" "must be a uuid")

-- removeMember; `subject` is none when the path's user is not a uuid.
unfoldable pub remove_member :
    Refuses → Membership → Option ℕ → Tables → Tables × Outcome (Unit {0})
remove_member bad m none w = (w, err bad_uuid)
remove_member bad m (some subject) w = scoped bad m.org_id w (remove_tx bad m subject w)

unfoldable pub set_role : ℕ → ℕ → Role → List Member → List Member
set_role org user role = update (is_member org user) (λ r. record r { role = role })

-- The update and the audit row of changeMemberRole.
unfoldable pub do_change :
    Refuses → Membership → ℕ → Role → Role → Tables → Tables × Outcome (Unit {0})
do_change bad m subject current next w =
    if current =s next
    then (w, ok tt)
    else if bad update_role
    then (w, err (refusal "update role"))
    else record_event bad m.org_id m.user_id (role_change subject current next)
        (record w { members = set_role m.org_id subject next w.members }) tt

-- The transaction of changeMemberRole.
unfoldable pub change_tx : Refuses → Membership → ℕ → Role → Tables → Tables × Outcome (Unit {0})
change_tx bad m subject next w =
    if bad select_role
    then (w, err (refusal "select role"))
    else elim (find (is_member m.org_id subject) w.members) [
      | none ↦ (w, err (typed (not_found "member" "")))
      | some r ↦
          let demotes = role_owner =s r.role && not (role_owner =s next) in
          if not (role_owner =s m.role) && (role_owner =s next || role_owner =s r.role)
          then (
            w,
            err (typed (with_fix "Ask an owner to do this." (forbidden "change an owner's role"))),
          )
          else if demotes && bad count_owners
          then (w, err (refusal "count owners"))
          else if demotes && leb (owners m.org_id w.members) 1
          then (w, err (last_owner "Make someone else an owner first."))
          else do_change bad m subject r.role next w
    ]

-- changeMemberRole.
unfoldable pub change_member_role :
    Refuses → Membership → Option ℕ → Outcome Role → Tables → Tables × Outcome (Unit {0})
change_member_role bad m none next w = (w, err bad_uuid)
change_member_role bad m (some subject) (err e) w = (w, err e)
change_member_role bad m (some subject) (ok next) w =
    if not (is_valid next)
    then (w, err (typed (invalid_field "role" "must be owner, admin, editor or viewer")))
    else scoped bad m.org_id w (change_tx bad m subject next w)

-- ===== src/V1/Members/Kept.antt =====
-- removeMember and changeMemberRole never leave an org without its owners.
use cofound.Prelude.{
  ℕ, ◌<◌, ◌≡◌, refl, inl, inr, Bool, true, false, ◌&&◌, ◌||◌, not, Option, none, some, arith, ◌=s◌,
  find, Option-cases, Bool-cases, if◌then◌else◌, leb,
}
use cofound.Tenancy.Roles.{Role, role_owner, is_valid}
use cofound.Tenancy.Directory.{Member, Membership, Outcome, ok, err, is_member}
use cofound.V1.Members.Store.{
  Event, Tables, Refuses, owners, record_event, record_audit, select_role, delete_member,
  update_role, count_owners,
}
use cofound.V1.Members.Changes.{
  remove_member, remove_tx, do_remove, do_change, change_tx, change_member_role,
}
use cofound.V1.Members.Owners.{
  IsKeyed, StaysOwned, scoped-keeps, delete-IsKeyed, delete-StaysOwned, set_role-IsKeyed,
  set_role-StaysOwned,
}

-- What every handler of members keeps, from the tables `w`: the primary key, and an owner in every
-- org that had one.
pub record Kept (w t : Tables) : Type 0 where
  pub keyed : IsKeyed t.members
  pub owned : StaysOwned w.members t.members

pub Kept-same : (w : Tables) → IsKeyed w.members → Kept w w
Kept-same w h = record { keyed = h; owned = λ o k. k }

pub record_event-Kept :
    {A : Type 0} (bad : Refuses) (w : Tables) (org actor : ℕ) (e : Event) (t : Tables) (a : A)
    → IsKeyed w.members
    → Kept w t
    → Kept w (record_event bad org actor e t a).0
unfolding record_event
record_event-Kept bad w org actor e t a k h = elim (Bool-cases (bad record_audit)) [
  | inl b ↦ rw b h
  | inr b ↦ rw b (record { keyed = h.keyed; owned = h.owned })
]

module _ (w : Tables) where
  pub if-Kept :
      {A : Type 0} (b : Bool) (x y : Tables × Outcome A)
      → (b ≡ true → Kept w x.0)
      → (b ≡ false → Kept w y.0)
      → Kept w (if b then x else y).0
  if-Kept true x y h k = h refl
  if-Kept false x y h k = k refl

module _ (bad : Refuses) (m : Membership) (w : Tables) (keyed : IsKeyed w.members) where
  same : Kept w w
  same = Kept-same w keyed

  module _ (subject : ℕ) (r : Member)
      (found : find (is_member m.org_id subject) w.members ≡ some r) where
    do_remove-Kept :
        ((role_owner =s r.role ≡ true) → 1 < owners m.org_id w.members)
        → Kept w (do_remove bad m subject r.role w).0
    unfolding do_remove
    do_remove-Kept h =
        if-Kept w (bad delete_member) _ _ (λ _. same)
          (λ _. record_event-Kept bad w m.org_id m.user_id _ _ tt keyed (record {
            keyed = delete-IsKeyed w.members (is_member m.org_id subject) keyed;
            owned = delete-StaysOwned w.members m.org_id subject r keyed found h;
          }))

    do_change-Kept :
        (next : Role)
        → ((role_owner =s r.role ≡ true)
            → (role_owner =s next ≡ false)
            → 1 < owners m.org_id w.members)
        → Kept w (do_change bad m subject r.role next w).0
    unfolding do_change
    do_change-Kept next h =
        if-Kept w (r.role =s next) _ _ (λ _. same)
          (λ _.
            if-Kept w (bad update_role) _ _ (λ _. same)
              (λ _. record_event-Kept bad w m.org_id m.user_id _ _ tt keyed (record {
                keyed = set_role-IsKeyed w.members m.org_id subject next keyed;
                owned = set_role-StaysOwned w.members m.org_id subject r keyed found next h;
              })))

  remove_tx-Kept : (subject : ℕ) → Kept w (remove_tx bad m subject w).0
  unfolding remove_tx
  remove_tx-Kept subject =
      if-Kept w (bad select_role) _ _ (λ _. same)
        λ _. elim (Option-cases (find (is_member m.org_id subject) w.members)) [
          | inl n ↦ rw n same
          | inr (r, e) ↦ rw e (
              if-Kept w (role_owner =s r.role && not (role_owner =s m.role)) _ _ (λ _. same)
                (λ _.
                  if-Kept w (role_owner =s r.role && bad count_owners) _ _ (λ _. same)
                    (λ _.
                      if-Kept w (role_owner =s r.role && leb (owners m.org_id w.members) 1) _ _
                        (λ _. same)
                        (λ guard. do_remove-Kept subject r e (λ o. ground (arith, guard))))))
        ]

  change_tx-Kept : (subject : ℕ) (next : Role) → Kept w (change_tx bad m subject next w).0
  unfolding change_tx
  change_tx-Kept subject next =
      if-Kept w (bad select_role) _ _ (λ _. same)
        λ _. elim (Option-cases (find (is_member m.org_id subject) w.members)) [
          | inl n ↦ rw n same
          | inr (r, e) ↦
              let demotes = role_owner =s r.role && not (role_owner =s next) in
              rw e (
                if-Kept w
                  (not (role_owner =s m.role) && (role_owner =s next || role_owner =s r.role)) _ _
                  (λ _. same)
                  (λ _.
                    if-Kept w (demotes && bad count_owners) _ _ (λ _. same)
                      (λ _.
                        if-Kept w (demotes && leb (owners m.org_id w.members) 1) _ _ (λ _. same)
                          (λ guard.
                            do_change-Kept subject r e next (λ o n. ground (arith, guard))))))
        ]

  pub remove_member-Kept : (subject : Option ℕ) → Kept w (remove_member bad m subject w).0
  unfolding remove_member
  remove_member-Kept none = same
  remove_member-Kept (some subject) =
      scoped-keeps (Kept w) bad m.org_id w (remove_tx bad m subject w) same (remove_tx-Kept subject)

  pub change_member_role-Kept :
      (subject : Option ℕ) (next : Outcome Role)
      → Kept w (change_member_role bad m subject next w).0
  unfolding change_member_role
  change_member_role-Kept none next = same
  change_member_role-Kept (some subject) (err e) = same
  change_member_role-Kept (some subject) (ok next) =
      if-Kept w (not (is_valid next)) _ _ (λ _. same)
        (λ _.
          scoped-keeps (Kept w) bad m.org_id w (change_tx bad m subject next w) same
            (change_tx-Kept subject next))

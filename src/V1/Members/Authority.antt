-- ===== src/V1/Members/Authority.antt =====
-- Who is an owner is for owners to change.
use cofound.Prelude.{
  ℕ, ◌≡◌, refl, inl, inr, Bool, false, not, Option, none, some, List, [], ◌∷◌, arith, ◌=s◌, find,
  update, delete, count, Option-cases, Bool-cases,
}
use cofound.Tenancy.Roles.{Role, role_owner}
use cofound.Tenancy.Directory.{Member, Membership, Outcome, ok, err, is_member}
use cofound.V1.Members.Store.{Tables, Refuses, is_owner, record_event}
use cofound.V1.Members.Changes.{
  remove_member, remove_tx, do_remove, set_role, do_change, change_tx, change_member_role,
}
use cofound.V1.Members.Counting.{both}
use cofound.V1.Members.Owners.{IsKeyed, scoped-keeps, both-owner}

-- The rows that pass `p`.
abbrev pub rows : (Member → Bool) → List Member → List Member
rows p = delete (λ x. not (p x))

module _ (p q : Member → Bool) where
  rows-delete : (xs : List Member) → count (both p q) xs ≡ 0 → rows p (delete q xs) ≡ rows p xs
  unfolding count delete
  rows-delete [] h = refl
  rows-delete (x ∷ xs) h = ground (arith, rows-delete xs)

  rows-update :
      (f : Member → Member) (xs : List Member)
      → count (both p q) xs ≡ 0
      → ((x : Member) → p (f x) ≡ false)
      → rows p (update q f xs) ≡ rows p xs
  unfolding count delete update
  rows-update f [] h k = refl
  rows-update f (x ∷ xs) h k = ground (arith, rows-update f xs, k x)

module _ (bad : Refuses) (m : Membership) (w : Tables) (keyed : IsKeyed w.members) (o : ℕ)
    (lesser : (role_owner =s m.role) ≡ false) where
  abbrev SameOwners : Tables → Type 0
  SameOwners t = rows (is_owner o) t.members ≡ rows (is_owner o) w.members

  module _ (subject : ℕ) (r : Member) (found : find (is_member m.org_id subject) w.members ≡ some r)
      (not_owner : (role_owner =s r.role) ≡ false) where
    none_both : count (both (is_owner o) (is_member m.org_id subject)) w.members ≡ 0
    none_both =
        unfold is_owner in ground (arith, both-owner w.members m.org_id subject r keyed found o)

    do_remove-owners : SameOwners (do_remove bad m subject r.role w).0
    unfolding do_remove record_event
    do_remove-owners =
        ground (arith, rows-delete (is_owner o) (is_member m.org_id subject) w.members none_both)

    demoted :
        (next : Role)
        → (role_owner =s next) ≡ false
        → (x : Member) → is_owner o (record x { role = next }) ≡ false
    unfolding is_owner
    demoted next e x = ground arith

    do_change-owners :
        (next : Role)
        → (role_owner =s next) ≡ false
        → SameOwners (do_change bad m subject r.role next w).0
    unfolding do_change record_event set_role
    do_change-owners next e = ground (
      arith,
      rows-update (is_owner o) (is_member m.org_id subject) (λ x. record x { role = next })
          w.members none_both (demoted next e),
    )

  remove_tx-owners : (subject : ℕ) → SameOwners (remove_tx bad m subject w).0
  unfolding remove_tx
  remove_tx-owners subject = elim (Option-cases (find (is_member m.org_id subject) w.members)) [
    | inl n ↦ ground arith
    | inr (r, e) ↦ ground (arith, do_remove-owners subject r e)
  ]

  change_tx-owners : (subject : ℕ) (next : Role) → SameOwners (change_tx bad m subject next w).0
  unfolding change_tx
  change_tx-owners subject next =
      elim (Option-cases (find (is_member m.org_id subject) w.members)) [
        | inl n ↦ ground arith
        | inr (r, e) ↦ elim (Bool-cases (role_owner =s r.role)) [
          | inl y ↦ ground arith
          | inr k ↦ ground (arith, do_change-owners subject r e k next)
        ]
      ]

  remove_member-owners : (subject : Option ℕ) → SameOwners (remove_member bad m subject w).0
  unfolding remove_member
  remove_member-owners none = refl
  remove_member-owners (some subject) =
      scoped-keeps SameOwners bad m.org_id w (remove_tx bad m subject w) refl
        (remove_tx-owners subject)

  change_role-owners :
      (subject : Option ℕ) (next : Outcome Role)
      → SameOwners (change_member_role bad m subject next w).0
  unfolding change_member_role
  change_role-owners none next = refl
  change_role-owners (some subject) (err e) = refl
  change_role-owners (some subject) (ok next) = ground (
    arith,
    scoped-keeps SameOwners bad m.org_id w (change_tx bad m subject next w) refl
        (change_tx-owners subject next),
  )

  -- A caller who is not an owner changes nobody's ownership, in any org: whomever they remove and
  -- whatever role they give, themselves included, the owners' rows are as they were.
  pub lesser-SameOwners :
      (subject : Option ℕ) (next : Outcome Role)
      → SameOwners (remove_member bad m subject w).0
        × SameOwners (change_member_role bad m subject next w).0
  lesser-SameOwners subject next = (remove_member-owners subject, change_role-owners subject next)

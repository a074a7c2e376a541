-- ===== src/V1/Members/Owners.antt =====
-- An org that has an owner keeps one.
use cofound.Prelude.{
  ℕ, ◌+◌, ◌≤◌, ◌<◌, ◌≡◌, refl, inl, inr, Bool, true, false, some, List, arith, ◌=s◌, find, delete,
  count, count-update, Bool-cases, In-find, subst, sym, if◌then◌else◌,
}
use cofound.Tenancy.Roles.{Role, role_owner}
use cofound.Tenancy.Directory.{Member, Outcome, ok, err, is_member}
use cofound.V1.Members.Store.{Tables, Refuses, finish, transact, scoped, is_owner, owners}
use cofound.V1.Members.Changes.{set_role}
use cofound.V1.Members.Counting.{
  both, count-delete, count-both_one, count-update-delete, count-update_up, count-delete_le,
}

-- The primary key of org_members.
abbrev pub IsKeyed : List Member → Type 0
IsKeyed ms = (org user : ℕ) → count (is_member org user) ms ≤ 1

-- Every org that had an owner has one.
abbrev pub StaysOwned : List Member → List Member → Type 0
StaysOwned ms ns = (org : ℕ) → 0 < owners org ms → 0 < owners org ns

-- What holds of the tables before a transaction and of those that it makes holds afterwards.
pub scoped-keeps :
    {A : Type 0} (P : Tables → Type 0) (bad : Refuses) (org : ℕ) (w : Tables)
    (r : Tables × Outcome A)
    → P w
    → P r.0
    → P (scoped bad org w r).0
unfolding scoped transact finish
scoped-keeps P bad org w (t, ok a) h k = ground (arith, h, k)
scoped-keeps P bad org w (t, err e) h k = ground (arith, h, k)

module _ (ms : List Member) (org subject : ℕ) (r : Member) (keyed : IsKeyed ms)
    (found : find (is_member org subject) ms ≡ some r) where
  -- Of the owners of an org, at most the subject is touched.
  pub both-owner :
      (o : ℕ)
      → count (both (is_owner o) (is_member org subject)) ms ≡ (if is_owner o r then 1 else 0)
  both-owner o = count-both_one (is_owner o) (is_member org subject) r ms (keyed org subject) found

  pub found_in : r.org_id ≡ org
  unfolding is_member
  found_in = ground (arith, (In-find (is_member org subject) r ms found).1)

  owner_of : (o : ℕ) → is_owner o r ≡ true → (o ≡ org) × (role_owner =s r.role ≡ true)
  unfolding is_owner
  owner_of o e = ground (arith, found_in)

  pub deleted_one :
      (o : ℕ)
      → owners o (delete (is_member org subject) ms) + (if is_owner o r then 1 else 0) ≡ owners o ms
  unfolding owners
  deleted_one o =
      subst
        (λ n. count (is_owner o) (delete (is_member org subject) ms) + n ≡ count (is_owner o) ms)
        (both-owner o) (count-delete (is_owner o) (is_member org subject) ms)

  pub delete-StaysOwned :
      ((role_owner =s r.role ≡ true) → 1 < owners org ms)
      → StaysOwned ms (delete (is_member org subject) ms)
  delete-StaysOwned h o k = elim (Bool-cases (is_owner o r)) [
    | inr n ↦ ground (arith, deleted_one o)
    | inl y ↦ ground (arith, deleted_one o, owner_of o y, h)
  ]

  stays_owner :
      (next : Role) (o : ℕ) (x : Member)
      → role_owner =s next ≡ true
      → is_owner o x ≡ true
      → is_owner o (record x { role = next }) ≡ true
  unfolding is_owner
  stays_owner next o x e h = ground arith

  owners-set_role_up :
      (next : Role) (o : ℕ)
      → role_owner =s next ≡ true
      → owners o ms ≤ owners o (set_role org subject next ms)
  unfolding set_role owners
  owners-set_role_up next o e =
      count-update_up (is_owner o) (is_member org subject) (λ x. record x { role = next }) ms
        (λ x _ h. stays_owner next o x e h)

  owners-set_role-delete :
      (next : Role) (o : ℕ)
      → owners o (delete (is_member org subject) ms) ≤ owners o (set_role org subject next ms)
  unfolding set_role owners
  owners-set_role-delete next o =
      count-update-delete (is_owner o) (is_member org subject) (λ x. record x { role = next }) ms

  -- A role that replaces the subject's; an owner's only by ownership, or when there are others.
  pub set_role-StaysOwned :
      (next : Role)
      → ((role_owner =s r.role ≡ true) → (role_owner =s next ≡ false) → 1 < owners org ms)
      → StaysOwned ms (set_role org subject next ms)
  set_role-StaysOwned next h o k = elim (Bool-cases (role_owner =s next)) [
    | inl y ↦ omega (arith, owners-set_role_up next o y)
    | inr n ↦ omega (arith, owners-set_role-delete next o, delete-StaysOwned (λ e. h e n) o k)
  ]

pub delete-IsKeyed : (ms : List Member) (p : Member → Bool) → IsKeyed ms → IsKeyed (delete p ms)
delete-IsKeyed ms p h org user =
    omega (arith, h org user, count-delete_le (is_member org user) p ms)

pub set_role-IsKeyed :
    (ms : List Member) (org subject : ℕ) (next : Role)
    → IsKeyed ms
    → IsKeyed (set_role org subject next ms)
unfolding set_role is_member
set_role-IsKeyed ms org subject next h o user =
    subst (λ n. n ≤ 1)
      (sym (
        count-update (is_member o user) (is_member org subject) (λ x. record x { role = next }) ms
          (λ x. refl)))
      (h o user)

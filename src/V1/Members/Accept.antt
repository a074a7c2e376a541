-- ===== src/V1/Members/Accept.antt =====
-- What accepting an invitation does.
use cofound.Prelude.{
  ℕ, ◌≡◌, refl, ◌∙◌, true, false, some, List, [], ◌∷◌, arith, ◌=s◌, find, update, delete, count,
}
use cofound.Tenancy.Roles.{Role, role_owner}
use cofound.Tenancy.Directory.{Member, ok, err, is_member}
use cofound.V1.Members.Store.{
  Invite, Tables, Refuses, finish, transact, is_owner, owners, record_event, begin_tx,
  consume_invite,
}
use cofound.V1.Members.Invites.{
  is_open, is_spendable, consume, upsert, redeem_tx, redeem, already_used,
}
use cofound.V1.Members.Counting.{count-update_drop}
use cofound.V1.Members.Owners.{IsKeyed, deleted_one, found_in}

count-consume :
    (i user now : ℕ) (is : List Invite) → count (is_spendable i) (consume i user now is) ≡ 0
unfolding count consume update is_spendable is_open
count-consume i user now [] = refl
count-consume i user now (x ∷ xs) = ground (arith, count-consume i user now xs)

-- What a redemption that succeeds did to the tables.
redeem-ok :
    (bad : Refuses) (user : ℕ) (i : Invite) (now : ℕ) (w t : Tables)
    → redeem bad user i now w ≡ (t, ok tt)
    → (t.invites ≡ consume i.id user now w.invites)
      × (t.members ≡ upsert i.org_id user i.role w.members)
unfolding redeem transact finish redeem_tx record_event
redeem-ok bad user i now w t e = ground arith

-- An invitation that has been accepted is not accepted again, by the same user or another who found
-- it at the same time: the second transaction is refused and changes nothing.
pub redeem_twice :
    (bad again : Refuses) (user other : ℕ) (i : Invite) (now later : ℕ) (w t : Tables)
    → again begin_tx ≡ false
    → again consume_invite ≡ false
    → redeem bad user i now w ≡ (t, ok tt)
    → redeem again other i later t ≡ (t, err already_used)
unfolding redeem transact finish redeem_tx
redeem_twice bad again user other i now later w t b k e =
    ground (arith, (redeem-ok bad user i now w t e).0, count-consume i.id user now w.invites)

module _ (w : Tables) (org user : ℕ) (r : Member) (keyed : IsKeyed w.members)
    (found : find (is_member org user) w.members ≡ some r) (own : role_owner =s r.role ≡ true)
    (alone : owners org w.members ≡ 1) where
  is_owner-found : is_owner org r ≡ true
  unfolding is_owner
  is_owner-found = ground (arith, found_in w.members org user r keyed found)

  owners-without : owners org (delete (is_member org user) w.members) ≡ 0
  owners-without = ground (arith, deleted_one w.members org user r keyed found org, is_owner-found)

  loses :
      (role : Role)
      → (role_owner =s role) ≡ false
      → (x : Member) → is_owner org (record x { role = role }) ≡ false
  unfolding is_owner
  loses role e x = ground arith

  owners-upsert :
      (role : Role) → (role_owner =s role) ≡ false → owners org (upsert org user role w.members) ≡ 0
  unfolding owners upsert
  owners-upsert role e = rw found (
      count-update_drop (is_owner org) (is_member org user) (λ x. record x { role = role })
        w.members (loses role e)
      ∙ owners-without)

-- The only owner of an org who accepts an invitation to it for a lower role leaves it without an
-- owner: nothing in acceptInvite counts the owners.
pub redeem-ownerless :
    (bad : Refuses) (user : ℕ) (i : Invite) (now : ℕ) (w t : Tables) (r : Member)
    → IsKeyed w.members
    → find (is_member i.org_id user) w.members ≡ some r
    → role_owner =s r.role ≡ true
    → owners i.org_id w.members ≡ 1
    → role_owner =s i.role ≡ false
    → redeem bad user i now w ≡ (t, ok tt)
    → owners i.org_id t.members ≡ 0
redeem-ownerless bad user i now w t r keyed found own alone lower e =
    rw (redeem-ok bad user i now w t e).1
      (owners-upsert w i.org_id user r keyed found own alone i.role lower)

-- ===== src/V1/Members/Joined.antt =====
-- Invitations: what accepting one does to the members, and every handler in turn.
use cofound.Prelude.{
  count-none, ℕ, ◌+◌, ◌<◌, ◌≡◌, refl, sym, subst, inl, inr, true, false, ◌&&◌, ◌||◌, not, Option,
  none, some, List, [], ◌∷◌, ◌++◌, String, arith, ◌==◌, ◌=s◌, ltb, find, count, count-append,
  Option-cases, Bool-cases, if◌then◌else◌,
}
use cofound.Auth.Token.{Hash}
use cofound.Tenancy.Roles.{Role, role_owner, is_valid}
use cofound.Tenancy.Directory.{Member, Membership, Outcome, Outcome-cases, ok, err, is_member}
use cofound.V1.Members.Store.{
  Invite, Tables, Refuses, finish, transact, scoped, is_owner, owners, consume_invite,
  upsert_member, insert_invite,
}
use cofound.V1.Members.Invites.{
  create_invite, send_invite, invite_tx, add_invite, is_taken, answer, find_invite, is_spendable,
  upsert, redeem_tx, redeem, accept_invite, new_invite,
}
use cofound.V1.Members.Changes.{remove_member, change_member_role, set_role}
use cofound.V1.Members.Owners.{
  IsKeyed, StaysOwned, scoped-keeps, set_role-IsKeyed, set_role-StaysOwned,
}
use cofound.V1.Members.Kept.{
  Kept, Kept-same, record_event-Kept, if-Kept, remove_member-Kept, change_member_role-Kept,
}

-- The user is not the only owner of the org, or stays an owner under the role.
abbrev pub SparesOwner : Tables → ℕ → ℕ → Role → Type 0
SparesOwner w org user role =
    (r : Member)
    → find (is_member org user) w.members ≡ some r
    → role_owner =s r.role ≡ true
    → role_owner =s role ≡ false
    → 1 < owners org w.members

module _ (ms : List Member) (org user : ℕ) (role : Role) (keyed : IsKeyed ms)
    (absent : find (is_member org user) ms ≡ none) where
  abbrev newcomer : Member
  newcomer = record { org_id = org; user_id = user; role = role }

  own_key : (o u : ℕ) → is_member o u newcomer ≡ true → (o ≡ org) × (u ≡ user)
  unfolding is_member
  own_key o u e = ground arith

  count_one :
      (o u : ℕ) → count (is_member o u) (newcomer ∷ []) ≡ (if is_member o u newcomer then 1 else 0)
  unfolding count
  count_one o u = refl

  joined-IsKeyed : IsKeyed (ms ++ newcomer ∷ [])
  joined-IsKeyed o u = elim (Bool-cases (is_member o u newcomer)) [
    | inl y ↦ ground (
      arith,
      own_key o u y,
      count-none (is_member org user) ms absent,
      count_one o u,
      count-append (is_member o u) ms (newcomer ∷ []),
    )
    | inr n ↦
        ground (arith, keyed o u, count_one o u, count-append (is_member o u) ms (newcomer ∷ []))
  ]

  joined-StaysOwned : StaysOwned ms (ms ++ newcomer ∷ [])
  unfolding owners
  joined-StaysOwned o k = omega (arith, count-append (is_owner o) ms (newcomer ∷ []))

module _ (w : Tables) (keyed : IsKeyed w.members) where
  Kept-members :
      (t : Tables) (ns : List Member)
      → t.members ≡ ns
      → IsKeyed ns
      → StaysOwned w.members ns
      → Kept w t
  Kept-members t ns e k o = record {
    keyed = subst IsKeyed (sym e) k;
    owned = subst (StaysOwned w.members) (sym e) o;
  }

  upsert-Kept :
      (t : Tables) (org user : ℕ) (role : Role)
      → SparesOwner w org user role
      → t.members ≡ upsert org user role w.members
      → Kept w t
  unfolding upsert set_role
  upsert-Kept t org user role h e = elim (Option-cases (find (is_member org user) w.members)) [
    | inl n ↦
        Kept-members t (w.members ++ record { org_id = org; user_id = user; role = role } ∷ [])
          (ground arith) (joined-IsKeyed w.members org user role keyed n)
          (joined-StaysOwned w.members org user role keyed n)
    | inr (r, f) ↦
        Kept-members t (set_role org user role w.members) (ground arith)
          (set_role-IsKeyed w.members org user role keyed)
          (set_role-StaysOwned w.members org user r keyed f role (h r f))
  ]

  module _ (bad : Refuses) where
    same : Kept w w
    same = Kept-same w keyed

    redeem_tx-Kept :
        (user : ℕ) (i : Invite) (now : ℕ)
        → SparesOwner w i.org_id user i.role
        → Kept w (redeem_tx bad user i now w).0
    unfolding redeem_tx
    redeem_tx-Kept user i now h =
        if-Kept w (bad consume_invite) _ _ (λ _. same)
          (λ _.
            if-Kept w (count (is_spendable i.id) w.invites == 0) _ _ (λ _. same)
              (λ _.
                if-Kept w (bad upsert_member) _ _ (λ _. same)
                  (λ _.
                    record_event-Kept bad w i.org_id user _ _ tt keyed
                      (upsert-Kept _ i.org_id user i.role h refl))))

    transact-keeps :
        {A : Type 0} (r : Tables × Outcome A) → Kept w r.0 → Kept w (transact bad w r).0
    unfolding transact finish
    transact-keeps (t, ok a) k = ground (arith, same, k)
    transact-keeps (t, err e) k = ground (arith, same)

    -- Accepting an invitation keeps the owners, if it does not demote the last one.
    accept_invite-Kept :
        (seen : Option ℕ) (user : ℕ) (token : Option Hash) (now : ℕ)
        → ((h : Hash) (i : Invite)
            → token ≡ some h
            → find_invite bad seen h now w ≡ ok i
            → SparesOwner w i.org_id user i.role)
        → Kept w (accept_invite bad seen user token now w).0
    unfolding accept_invite redeem
    accept_invite-Kept seen user none now s = same
    accept_invite-Kept seen user (some h) now s =
        elim (Outcome-cases (find_invite bad seen h now w)) [
          | inr (e, f) ↦ rw (f, accept_invite) same
          | inl (i, f) ↦
              rw (f, accept_invite, redeem)
                (transact-keeps (redeem_tx bad user i now w)
                  (redeem_tx-Kept user i now (s h i refl f)))
        ]

    add_invite-Kept : (m : Membership) (i : Invite) → Kept w (add_invite bad m i w).0
    unfolding add_invite
    add_invite-Kept m i =
        record_event-Kept bad w m.org_id m.user_id _ _ i keyed
          (record { keyed = keyed; owned = λ o k. k })

    invite_tx-Kept :
        (m : Membership) (email : String) (role : Role) (hash now ttl : ℕ)
        → Kept w (invite_tx bad m email role hash now ttl w).0
    unfolding invite_tx
    invite_tx-Kept m email role hash now ttl =
        if-Kept w (bad insert_invite || not (ltb now (now + ttl))) _ _ (λ _. same)
          (λ _.
            if-Kept w (is_taken m.org_id email hash w.invites) _ _ (λ _. same)
              (λ _. add_invite-Kept m (new_invite m email role hash (now + ttl) w.next_id)))

    answer-Kept : {A : Type 0} (r : Tables × Outcome A) → Kept w r.0 → Kept w (answer r).0
    unfolding answer
    answer-Kept (t, ok a) k = k
    answer-Kept (t, err e) k = k

    send_invite-Kept :
        (m : Membership) (email : String) (role : Role) (hash : Outcome Hash) (now ttl : ℕ)
        → Kept w (send_invite bad m email role hash now ttl w).0
    unfolding send_invite
    send_invite-Kept m email role (err e) now ttl = same
    send_invite-Kept m email role (ok hash) now ttl =
        answer-Kept (scoped bad m.org_id w (invite_tx bad m email role hash now ttl w)) (
          scoped-keeps (Kept w) bad m.org_id w (invite_tx bad m email role hash now ttl w) same
            (invite_tx-Kept m email role hash now ttl))

    create_invite-Kept :
        (m : Membership) (email : Outcome String) (role : Role) (hash : Outcome Hash) (now ttl : ℕ)
        → Kept w (create_invite bad m email role hash now ttl w).0
    unfolding create_invite
    create_invite-Kept m (err e) role hash now ttl = same
    create_invite-Kept m (ok email) role hash now ttl =
        if-Kept w (not (is_valid role)) _ _ (λ _. same)
          (λ _.
            if-Kept w (role_owner =s role && not (role_owner =s m.role)) _ _ (λ _. same)
              (λ _. send_invite-Kept m email role hash now ttl))

-- One handler that has run, whoever calls it and whatever the database refuses; an invitation is
-- accepted by someone whom it does not demote from being an org's last owner.
pub data Step (w : Tables) : Tables → Type 0 where
  invites :
      (bad : Refuses) (m : Membership) (email : Outcome String) (role : Role) (hash : Outcome Hash)
      (now ttl : ℕ)
      → Step w (create_invite bad m email role hash now ttl w).0
  accepts :
      (bad : Refuses) (seen : Option ℕ) (user : ℕ) (token : Option Hash) (now : ℕ)
      → ((h : Hash) (i : Invite)
          → token ≡ some h
          → find_invite bad seen h now w ≡ ok i
          → SparesOwner w i.org_id user i.role)
      → Step w (accept_invite bad seen user token now w).0
  removes :
      (bad : Refuses) (m : Membership) (subject : Option ℕ)
      → Step w (remove_member bad m subject w).0
  changes :
      (bad : Refuses) (m : Membership) (subject : Option ℕ) (next : Outcome Role)
      → Step w (change_member_role bad m subject next w).0

pub data Reach (w : Tables) : Tables → Type 0 where
  here : Reach w w
  next : {t u : Tables} → Reach w t → Step t u → Reach w u

Step-Kept : {w t : Tables} → IsKeyed w.members → Step w t → Kept w t
Step-Kept {w} k (invites bad m email role hash now ttl) =
    create_invite-Kept w k bad m email role hash now ttl
Step-Kept {w} k (accepts bad seen user token now s) =
    accept_invite-Kept w k bad seen user token now s
Step-Kept {w} k (removes bad m subject) = remove_member-Kept bad m w k subject
Step-Kept {w} k (changes bad m subject role) = change_member_role-Kept bad m w k subject role

-- When the handlers that invite, accept, remove and give other roles run one after another, each
-- of them whole before the next begins, by whomever and whichever statements fail, on a table where no
-- user is twice a member of an org: no user is a member of an org twice, and every org that
-- had an owner has one, as long as no invitation is accepted by an org's last owner for a lower role.
pub Reach-Kept : {w t : Tables} → IsKeyed w.members → Reach w t → Kept w t
Reach-Kept {w} k here = Kept-same w k
Reach-Kept k (next r s) =
    let before = Reach-Kept k r in
    let after = Step-Kept before.keyed s in
    record { keyed = after.keyed; owned = λ o h. after.owned o (before.owned o h) }

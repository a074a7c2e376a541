-- ===== src/Examples/Members.antt =====
-- services/api/internal/v1: invites.go on an org of an owner and an admin, and a slug of orgs.go.
use cofound.Prelude.{◌≡◌, ◌⊎◌, true, refl, false, some, none, [], ◌∷◌, arith, find, update, count}
use cofound.Tenancy.Directory.{Member, Membership, ok, is_member}
use cofound.Errs.Code.{codes}
use cofound.V1.Slugs.{
  slugify, valid_slug, trimmed, trim_dashes, trim_last, keep_last, dashed, is_plain, lower,
}
use cofound.V1.Slugs.Valid.{slugify-valid_slug}
use cofound.V1.Members.Store.{
  Invite, Tables, Refuses, is_owner, owners, record_event, transact, finish,
}
use cofound.V1.Members.Invites.{redeem, redeem_tx, is_spendable, is_open, consume, upsert}
use cofound.V1.Members.Changes.{remove_member, change_member_role}
use cofound.V1.Members.Owners.{IsKeyed}
use cofound.V1.Members.Kept.{Kept}
use cofound.V1.Members.Joined.{here, next, removes, Reach-Kept}
use cofound.V1.Members.Authority.{rows, lesser-SameOwners}

abbrev all_go : Refuses
all_go s = false

abbrev ann : Member
ann = record { org_id = 1; user_id = 7; role = "owner" }

abbrev bob : Member
bob = record { org_id = 1; user_id = 8; role = "admin" }

-- An invitation for the owner to become a viewer.
abbrev lower_invite : Invite
lower_invite = record {
  id = 3;
  org_id = 1;
  email = "ann@acme.test";
  role = "viewer";
  token_hash = 99;
  invited_by = 8;
  expires_at = 1000;
  accepted_at = none;
  accepted_by = none;
  revoked_at = none;
}

abbrev acme : Tables
acme = record { members = ann ∷ bob ∷ []; invites = lower_invite ∷ []; log = []; next_id = 4 }

acme-IsKeyed : IsKeyed acme.members
unfolding count is_member
acme-IsKeyed org user = ground arith

abbrev ann_in_acme : Membership
ann_in_acme = record { user_id = 7; org_id = 1; role = "owner"; org_slug = "acme"; project_id = 0 }

abbrev bob_in_acme : Membership
bob_in_acme = record { user_id = 8; org_id = 1; role = "admin"; org_slug = "acme"; project_id = 0 }

abbrev without_bob : Tables
without_bob = (remove_member all_go ann_in_acme (some 8) acme).0

Reach-Kept_example : Kept acme without_bob
Reach-Kept_example = Reach-Kept acme-IsKeyed (next here (removes all_go ann_in_acme (some 8)))

lesser-SameOwners_example :
    (rows (is_owner 1) (remove_member all_go bob_in_acme (some 7) acme).0.members
      ≡ rows (is_owner 1) acme.members)
    × (rows
          (is_owner 1)
          (change_member_role all_go bob_in_acme (some 7) (ok "viewer") acme).0.members
        ≡ rows (is_owner 1) acme.members)
lesser-SameOwners_example =
    lesser-SameOwners all_go bob_in_acme acme acme-IsKeyed 1 refl (some 7) (ok "viewer")

abbrev redeemed : Tables
redeemed = (redeem all_go 7 lower_invite 500 acme).0

redeemed_once : redeem all_go 7 lower_invite 500 acme ≡ (redeemed, ok tt)
unfolding redeem redeem_tx transact finish record_event count is_spendable is_open consume upsert
    update find is_member
redeemed_once = refl

found_ann : find (is_member 1 7) acme.members ≡ some ann
unfolding find is_member
found_ann = refl

one_owner : owners 1 acme.members ≡ 1
unfolding owners count is_owner
one_owner = refl

suggested : slugify (codes "Acme, Inc.") ≡ codes "acme-inc"
unfolding slugify trimmed trim_dashes trim_last keep_last dashed is_plain lower
suggested = refl

slugify-valid_slug_example :
    (slugify (codes "Acme, Inc.") ≡ []) ⊎ (valid_slug (slugify (codes "Acme, Inc.")) ≡ true)
slugify-valid_slug_example = slugify-valid_slug (codes "Acme, Inc.")

-- ===== src/Examples/Sessions.antt =====
-- services/api/internal/auth/session.go on a table with one session.
use Prim.Native.String.{len}
use cofound.Prelude.{◌≡◌, refl, false, some, none, [], ◌∷◌, find, delete, arith}
use cofound.Auth.Token.{Token, is_zero, zero_token}
use cofound.Auth.Session.Store.{
  Session, Sessions, Row, Store, Refuses, ok, err, no_session, clamp, checks, insert,
}
use cofound.Auth.Session.Ops.{
  issue, issued_session, new_row, rotate, rotated_session, by_token, verify, judge, touch, touched,
  is_dead, succeeds, select,
}
use cofound.Auth.Session.Admin.{revoke_all_for_user}
use cofound.Auth.Session.Invariant.{IsLinked}
use cofound.Auth.Session.Keeps.{issues, Reach, here, next, Reach-IsLinked}
use cofound.Auth.Session.Deadline.{Admitted, verify-Admitted}
use cofound.Auth.Session.Revocation.{verify-revoked}
use cofound.Auth.Session.Rotation.{verify-in_grace}

-- A short policy, and the length of a token in place of its hash.
abbrev config : Sessions
config = record {
  policy = record {
    idle_timeout = 100;
    absolute_timeout = 1000;
    rotate_after = 10;
    rotate_grace = 5;
  };
  hash = λ t. len t.raw;
}

abbrev all_go : Refuses
all_go s = false

abbrev token_a : Token
token_a = record { raw = "a" }

abbrev token_b : Token
token_b = record { raw = "bb" }

abbrev empty : Store
empty = record { rows = []; next_id = 1 }

abbrev row_a : Row
row_a = record {
  session = record {
    id = 1;
    user_id = 7;
    issued_at = 50;
    last_seen_at = 50;
    expires_at = 150;
    absolute_expires_at = 1050;
  };
  token_hash = 1;
  rotated_from = none;
  rotated_at = none;
  revoked_at = none;
  revoked_reason = none;
}

abbrev one : Store
one = record { rows = row_a ∷ []; next_id = 2 }

empty-IsLinked : IsLinked empty
empty-IsLinked = record {
  fresh = λ r i. absurd i;
  fresh_from = λ r k i e. absurd i;
  one_owner = λ r q i j e. absurd i;
  chain = λ r q i j e. absurd i;
  within = λ r i. absurd i;
}

issued : Reach config empty one
unfolding issue issued_session new_row insert clamp checks find
issued = next here (issues all_go (some token_a) empty 7 50)

Reach-IsLinked_example : IsLinked one
Reach-IsLinked_example = Reach-IsLinked config issued empty-IsLinked

one-IsLinked : IsLinked one
one-IsLinked = Reach-IsLinked config issued empty-IsLinked

unknown_token : (verify config all_go none one token_b 60).1 ≡ err no_session
unfolding verify by_token find is_zero
unknown_token = refl

abbrev seen_a : Session
seen_a = record row_a.session { last_seen_at = 55; expires_at = 155 }

verified_a : (verify config all_go none one token_a 55).1 ≡ ok (seen_a, zero_token)
unfolding verify by_token find is_zero judge is_dead touch touched clamp checks
verified_a = refl

verify-Admitted_example :
    (r : Row) × (by_token config token_a one.rows ≡ some r) × Admitted r 55 seen_a
verify-Admitted_example =
    verify-Admitted config all_go none one token_a 55 (seen_a, zero_token) one-IsLinked verified_a

found_a : by_token config token_a one.rows ≡ some row_a
unfolding by_token find
found_a = refl

verify-revoked_example :
    verify config all_go none (revoke_all_for_user all_go one 7 "lost" 60).0 token_a 61
    ≡ ((revoke_all_for_user all_go one 7 "lost" 60).0, err no_session)
verify-revoked_example =
    verify-revoked config all_go one 7 60 "lost" all_go none token_a row_a 61 refl refl found_a refl

abbrev session_b : Session
session_b = record {
  id = 2;
  user_id = 7;
  issued_at = 70;
  last_seen_at = 70;
  expires_at = 170;
  absolute_expires_at = 1050;
}

rotated_a : (rotate config all_go (some token_b) one row_a.session 70).1 ≡ ok (session_b, token_b)
unfolding rotate rotated_session new_row insert clamp checks find
rotated_a = refl

no_successor : select (succeeds 1) one.rows ≡ []
unfolding select delete succeeds
no_successor = refl

alive_a : is_dead config row_a 74 ≡ false
unfolding is_dead
alive_a = refl

not_zero_a : is_zero token_a ≡ false
unfolding is_zero
not_zero_a = refl

abbrev two : Store
two = (rotate config all_go (some token_b) one row_a.session 70).0

verify-in_grace_example :
    verify config all_go none two token_a 74 ≡ (two, ok (session_b, zero_token))
verify-in_grace_example =
    verify-in_grace config all_go all_go token_b token_a one row_a 70 (session_b, token_b)
      one-IsLinked found_a no_successor rotated_a none 74 not_zero_a refl refl alive_a (omega arith)

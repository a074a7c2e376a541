-- ===== src/Examples/Keys.antt =====
-- services/api/internal/idempotency/idempotency.go with a handler that counts its runs.

use cofound.Prelude.{ℕ, suc, ◌≡◌, ◌≢◌, refl, true, false, some, none, [], ◌∷◌, find, length, arith}
use cofound.Idempotency.Keys.{KeyRow, Refuses, Middleware, Call, is_key, same_call}
use cofound.Idempotency.Wrap.{Output, Handler, Request}

abbrev config : Middleware
config = record { ttl = 0; max_body = 8; digest = length }

abbrev answer : Output
answer = record { status = some 201; pieces = (1 ∷ []) ∷ (2 ∷ []) ∷ []; headers = [] }

abbrev counting : Handler ℕ
counting body n = (suc n, answer)

abbrev all_go : Refuses
all_go s = false

abbrev create_request : Request
create_request = record {
  key_header = "k1";
  method = "POST";
  path = "/v1/projects";
  org = some 4;
  body = some (9 ∷ []);
}

abbrev create_call : Call
create_call = record { org = 4; key = "k1"; method = "POST"; path = "/v1/projects"; hash = 1 }

abbrev other_call : Call
other_call = record { org = 4; key = "k1"; method = "POST"; path = "/v1/projects"; hash = 2 }

abbrev row_one : KeyRow
row_one = record {
  org_id = 4;
  key = "k1";
  method = "POST";
  path = "/v1/projects";
  request_hash = 1;
  expires_at = 100;
  completed = none;
}

found_one : find (is_key 4 "k1") (row_one ∷ []) ≡ some row_one
unfolding find is_key
found_one = refl

same_one : same_call create_call row_one ≡ true
unfolding same_call
same_one = refl

differs_one : same_call other_call row_one ≡ false
unfolding same_call
differs_one = refl

other_org : 5 ≢ create_call.org
other_org = ground arith

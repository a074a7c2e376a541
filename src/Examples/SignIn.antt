-- ===== src/Examples/SignIn.antt =====
-- services/api/internal/auth/magiclink.go for one address.
use Prim.Native.String.{len}
use cofound.Prelude.{◌≡◌, refl, true, false, some, [], find, update, count}
use cofound.Auth.Token.{Token, is_zero}
use cofound.Auth.Session.Store.{ok, err, no_session}
use cofound.Auth.Links.{
  MagicLinks, Links, Refuses, request, request_link, store_link, send_link, link_row, recent,
  has_hash, consume_link, is_live, spend, sign_in, upsert_by_email,
}
use cofound.Auth.Links.Throttle.{here}
use cofound.Auth.Links.Single.{consume_link-once}

abbrev config : MagicLinks
config = record {
  policy = record { ttl = 100; max_per_email = 2; window = 1000 };
  base_ok = true;
  hash = λ t. len t.raw;
}

abbrev all_go : Refuses
all_go s = false

abbrev token_a : Token
token_a = record { raw = "a" }

abbrev nobody : Links
nobody = record { tokens = []; users = []; next_user = 1; outbox = [] }

abbrev asked : Links
asked = (request config all_go (some token_a) (ok "ann@acme.test") 10 nobody).0

abbrev signed : Links
signed = (consume_link config all_go token_a 20 asked).0

signed_in : consume_link config all_go token_a 20 asked ≡ (signed, ok (1, "ann@acme.test"))
unfolding request request_link store_link send_link link_row recent has_hash consume_link is_live
    spend sign_in upsert_by_email is_zero find update count
signed_in = refl

consume_link-once_example : consume_link config all_go token_a 20 signed ≡ (signed, err no_session)
consume_link-once_example =
    consume_link-once config all_go token_a 20 asked signed (1, "ann@acme.test") signed_in all_go 20
      signed here refl refl

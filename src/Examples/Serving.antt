-- ===== src/Examples/Serving.antt =====
-- The routes of services/api/internal/auth/handlers.go and the middlewares of the authed subtree, at
-- concrete inputs.
use Prim.Native.String.{len}
use cofound.Prelude.{◌≡◌, ◌≢◌, refl, true, false, some, none, [], ◌∷◌, find, lookup, String}
use cofound.Errs.Outcome.{ok}
use cofound.Auth.Token.{Token, is_zero, parse_token, zero_token}
use cofound.Auth.Session.Store.{Sessions, Store, Refuses, insert, checks, clamp}
use cofound.Auth.Session.Ops.{
  Verified, issue, issued_session, new_row, verify, judge, touch, touched, is_dead, by_token,
}
use cofound.Auth.Session.Admin.{revoke}
use cofound.Auth.Session.Invariant.{IsLinked}
use cofound.Auth.Session.Keeps.{issues, verifies, Reach, here, next, Reach-IsLinked}
use cofound.Auth.Session.Ended.{IsUnforked}
use cofound.Auth.Session.Unforked.{Reach-IsUnforked}
use cofound.Auth.Cookies.{CookieConfig, Jar, read_cookie, token_under, clear_cookie}
use cofound.Auth.Google.{Google, flag}
use cofound.Auth.Handlers.{Handlers, World, Env, cookie, sign_out, sign_out_of, cleared}
use cofound.Auth.Handlers.SignedOut.{sign_out-refused}
use cofound.Httpx.Writer.{wrap}

abbrev pub config : Sessions
config = record {
  policy = record {
    idle_timeout = 100;
    absolute_timeout = 1000;
    rotate_after = 50;
    rotate_grace = 5;
  };
  hash = λ t. len t.raw;
}

abbrev pub all_go : Refuses
all_go s = false

-- 43 characters.
abbrev pub token_text : String
token_text = "aaaaaaaaaabbbbbbbbbbccccccccccddddddddddeee"

abbrev pub token : Token
token = record { raw = token_text }

abbrev empty : Store
empty = record { rows = []; next_id = 1 }

empty-IsLinked : IsLinked empty
empty-IsLinked = record {
  fresh = λ r i. absurd i;
  fresh_from = λ r k i e. absurd i;
  one_owner = λ r q i j e. absurd i;
  chain = λ r q i j e. absurd i;
  within = λ r i. absurd i;
}

empty-IsUnforked : IsUnforked empty
empty-IsUnforked = record {
  once = λ q r i j e. absurd i;
  marked = λ q r i j e g. absurd i;
  single = λ q r k i j e g a b. absurd i;
}

abbrev pub signed : Store
signed = (issue config all_go (some token) empty 7 50).0

issued_once : Reach config empty signed
issued_once = next here (issues all_go (some token) empty 7 50)

pub signed-IsLinked : IsLinked signed
signed-IsLinked = Reach-IsLinked config issued_once empty-IsLinked

signed-IsUnforked : IsUnforked signed
signed-IsUnforked = Reach-IsUnforked config issued_once empty-IsLinked empty-IsUnforked

Reach-IsUnforked_example : IsUnforked (verify config all_go none signed token 60).0
Reach-IsUnforked_example =
    Reach-IsUnforked config (next issued_once (verifies all_go none signed token 60)) empty-IsLinked
      empty-IsUnforked

abbrev pub cookies : CookieConfig
cookies = record { secure = true; max_age = 90000000000 }

abbrev pub jar : Jar
jar = ("__Host-halyard_session", token_text) ∷ []

held : read_cookie jar ≡ some token
unfolding read_cookie token_under lookup parse_token
held = refl

-- The session that Verify gives, ten units later.
abbrev seen : Verified
seen = (
  record {
    id = 1;
    user_id = 7;
    issued_at = 50;
    last_seen_at = 60;
    expires_at = 160;
    absolute_expires_at = 1050;
  },
  zero_token,
)

let_in : (verify config all_go none signed token 60).1 ≡ ok seen
unfolding verify issue issued_session new_row insert checks clamp find by_token judge is_dead touch
    touched is_zero
let_in = refl

abbrev pub google : Google
google = record {
  cfg = record {
    client_id = "client";
    client_secret = "secret";
    redirect_url = "https://api.test/cb";
    auth_url = "https://accounts.google.com/o/oauth2/v2/auth";
    auth_ok = true;
  };
  endpoint = λ code verifier. ok (record { status = 200; readable = true; id_token = ok "h.p.s" });
  decode = λ p. ok (record {
    issuer = "accounts.google.com";
    audience = "client";
    subject = "sub-1";
    email = "ann@acme.test";
    verified = flag true;
    expiry = 100;
  });
  normalise = λ s. ok s;
  sha256_url = λ s. s;
}

abbrev pub handlers : Handlers
handlers = record {
  sessions = config;
  links = record {
    policy = record { ttl = 100; max_per_email = 2; window = 1000 };
    base_ok = true;
    hash = λ t. len t.raw;
  };
  google = google;
  cookies = cookies;
  audited = true;
  origin = some "https://console.test";
  user_name = λ u. none;
  org_name = λ o. "Acme";
}

abbrev pub world : World
world = record {
  sessions = signed;
  accounts = record {
    links = record { tokens = []; users = []; next_user = 1; outbox = [] };
    identities = [];
  };
  directory = record { orgs = []; members = []; projects = [] };
  signed_in = [];
}

abbrev pub env : Env
env = record {
  now = 60;
  fresh = none;
  second_fresh = none;
  session_bad = all_go;
  mail_bad = λ s. false;
  google_bad = λ s. false;
  load_user_bad = false;
  load_orgs_bad = false;
  audit_bad = false;
  request_id = "";
}

went_out : (sign_out handlers env jar world wrap).2 ≡ ok tt
unfolding sign_out sign_out_of cleared read_cookie token_under lookup parse_token verify issue
    issued_session new_row insert checks clamp find by_token judge is_dead touch touched is_zero
    revoke
went_out = refl

sign_out-refused_example :
    ((sign_out handlers env jar world wrap).1.sent ≡ some (204, cookie (clear_cookie cookies) ∷ []))
    × ((verify config all_go none (sign_out handlers env jar world wrap).0.sessions token 61).1
        ≢ ok seen)
unfolding wrap
sign_out-refused_example =
    sign_out-refused handlers env jar world wrap token seen seen all_go none 61 signed-IsUnforked
      refl refl held let_in went_out

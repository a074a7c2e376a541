-- ===== src/Examples/Authed.antt =====
-- The middlewares of the authed subtree, at a concrete request.
use cofound.Prelude.{ℕ, ◌+◌, ◌≡◌, ◌⊎◌, refl, true, false, some, none, [], ◌∷◌, length}
use cofound.Idempotency.Wrap.{Handler}
use cofound.Auth.Token.{parse_token, is_zero}
use cofound.Auth.Session.Store.{insert}
use cofound.Auth.Session.Ops.{by_token, issue, new_row, issued_session, judge, is_dead, touch}
use cofound.Httpx.RateLimit.{new_store}
use cofound.Api.Pipeline.{
  Route, Incoming, Env, Context, Server, World, authed_limit, user_for, serve_authed,
}
use cofound.Api.Guarded.{SameApp, IsAllowed, by_ip, serve_authed-IsAllowed, serve_authed-by_ip}
use cofound.Examples.Serving.{config, all_go, signed, signed-IsLinked, cookies, jar}

abbrev server : Server
server = record {
  sessions = config;
  cookies = cookies;
  limit = authed_limit;
  keys = record { ttl = 1000; max_body = 100; digest = λ b. length b };
  format = λ i. "1";
}

abbrev env : Env
env = record {
  now = 60;
  fresh = none;
  session_bad = all_go;
  directory_bad = λ s. false;
  key_bad = λ s. false;
}

abbrev incoming : Incoming
incoming = record {
  jar = jar;
  names = record { org = "acme"; project = ""; org_header = "" };
  sent = record {
    key_header = "k1";
    method = "POST";
    path = "/v1/orgs/acme/invites";
    org = none;
    body = some (7 ∷ []);
  };
  peer = some "192.0.2.1";
  host = "";
}

abbrev world : World ℕ
world = record {
  sessions = signed;
  directory = record {
    orgs = record { id = 1; slug = "acme" } ∷ [];
    members = record { org_id = 1; user_id = 7; role = "admin" } ∷ [];
    projects = [];
  };
  buckets = new_store;
  keys = [];
  app = 0;
}

abbrev invite : Route
invite = record {
  method = "POST";
  pattern = "/v1/orgs/{org}/invites";
  action = some "member.invite";
  replayed = true;
}

abbrev handler : Context → Handler ℕ
handler ctx body n = (n + 1, record { status = some 201; pieces = []; headers = [] })

serve_authed-IsAllowed_example :
    SameApp (serve_authed server env incoming invite handler world).0 world
    ⊎ IsAllowed server env incoming "member.invite" world
serve_authed-IsAllowed_example =
    serve_authed-IsAllowed server env incoming invite handler "member.invite" world signed-IsLinked
      refl

serve_authed-by_ip_example :
    (serve_authed server env incoming invite handler world).0.buckets
    ≡ by_ip server env incoming world.buckets
unfolding user_for parse_token is_zero by_token issue insert new_row issued_session judge is_dead
    touch
serve_authed-by_ip_example = serve_authed-by_ip server env incoming invite handler world _ refl

-- ===== src/Api/Pipeline.antt =====
-- The middlewares of the authed subtree, each a function of what follows it: Authenticate and Require
-- of services/api/internal/tenancy/middleware.go, the RateLimiter, and the idempotency of a mutation.

use cofound.Prelude.{
  ℕ, ◌*◌, String, Bool, true, false, Option, none, some, List, [], ◌∷◌, ◌++◌, if◌then◌else◌,
}
use cofound.Errs.Types.{GoError, typed}
use cofound.Errs.Outcome.{Outcome, ok, err}
use cofound.Errs.Build.{unauthenticated}
use cofound.Auth.Token.{Token, is_zero}
use cofound.Auth.Session.Store.{Sessions, Store, no_session, second}
use cofound.Auth.Session.Store as Table
use cofound.Auth.Session.Ops.{Verified, verify}
use cofound.Auth.Cookies.{CookieConfig, SetCookie, Jar, set_cookie, read_cookie}
use cofound.Auth.Handlers.{is_sentinel}
use cofound.Tenancy.Roles.{Action}
use cofound.Tenancy.Directory.{Directory, Membership}
use cofound.Tenancy.Directory as Dir
use cofound.Tenancy.Resolve.{Request, Verdict, panics, refused, granted, require}
use cofound.Httpx.RateLimit as Rate
use cofound.Httpx.RateLimit.{RateLimit, MemoryStore, limit_request, key_by_org}
use cofound.Idempotency.Keys.{Middleware}
use cofound.Idempotency.Keys as Keys
use cofound.Idempotency.Wrap as Wrap
use cofound.Idempotency.Wrap.{Handler, serve}

-- A route of Mount: the action that Require is given, if any, and whether idempotency is round it.
pub record Route : Type 0 where
  pub method : String
  pub pattern : String
  pub action : Option Action
  pub replayed : Bool

-- Mount, of v1.Handlers.
unfoldable pub routes : List Route
routes =
    record { method = "POST"; pattern = "/v1/orgs"; action = none; replayed = true }
    ∷ record {
      method = "GET";
      pattern = "/v1/orgs/{org}/members";
      action = some "org.read";
      replayed = false;
    }
    ∷ record {
      method = "POST";
      pattern = "/v1/orgs/{org}/invites";
      action = some "member.invite";
      replayed = true;
    }
    ∷ record {
      method = "DELETE";
      pattern = "/v1/orgs/{org}/members/{user}";
      action = some "member.remove";
      replayed = true;
    }
    ∷ record {
      method = "PATCH";
      pattern = "/v1/orgs/{org}/members/{user}";
      action = some "member.role_change";
      replayed = true;
    }
    ∷ record { method = "POST"; pattern = "/v1/invites/accept"; action = none; replayed = true }
    ∷ record {
      method = "POST";
      pattern = "/v1/projects";
      action = some "project.create";
      replayed = true;
    }
    ∷ record {
      method = "GET";
      pattern = "/v1/projects";
      action = some "project.read";
      replayed = false;
    }
    ∷ record {
      method = "GET";
      pattern = "/v1/projects/{project}";
      action = some "project.read";
      replayed = false;
    }
    ∷ record {
      method = "DELETE";
      pattern = "/v1/projects/{project}";
      action = some "project.delete";
      replayed = true;
    }
    ∷ []

-- What a request brings: its cookies, what Require and Wrap read, and its peer as the rate limiter
-- does.
pub record Incoming : Type 0 where
  pub jar : Jar
  pub names : Request
  pub sent : Wrap.Request
  pub peer : Option String
  pub host : String

-- What it meets.
pub record Env : Type 0 where
  pub now : ℕ
  pub fresh : Option Token
  pub session_bad : Table.Refuses
  pub directory_bad : Dir.Refuses
  pub key_bad : Keys.Refuses

-- The values in its context: the caller, the membership, and the org of its scope.
pub record Context : Type 0 where
  pub caller : Option ℕ
  pub membership : Option Membership
  pub scope_org : String

abbrev pub background : Context
background = record { caller = none; membership = none; scope_org = "" }

-- The parts of the server. `format` is the text of an org's id.
pub record Server : Type 0 where
  pub sessions : Sessions
  pub cookies : CookieConfig
  pub limit : RateLimit
  pub keys : Middleware
  pub format : ℕ → String

-- The tables, the buckets of the limiter, the idempotency keys and the application's state.
pub record World (S : Type 0) : Type 0 where
  pub sessions : Store
  pub directory : Directory
  pub buckets : MemoryStore
  pub keys : Keys.Table
  pub app : S

-- How a request ends: with an error, a panic, or what Wrap answers for the handler.
pub data Ending : Type 0 where
  failed : GoError → Ending
  panicked : Ending
  handled : Wrap.Reply → Ending

-- The cookies that were set, and the ending.
abbrev pub Answer : Type 0
Answer = List SetCookie × Ending

-- The limit of the authed subtree: 50 a second, 200 at once.
abbrev pub authed_limit : RateLimit
authed_limit = record { rate = 50; burst = 200 * second; one = second }

-- Authenticate's answer to an error of UserFor: tenancy's own sentinel is a plain 401, and any other
-- error is rendered as it is.
unfoldable pub unauthorised : GoError → GoError
unfolding is_sentinel
unauthorised e = if is_sentinel "tenancy: no session" e then typed unauthenticated else e

-- The cookie that Rotated writes.
unfoldable pub rotated_cookie : CookieConfig → Token → List SetCookie
unfolding is_zero set_cookie
rotated_cookie c t = if is_zero t then [] else set_cookie c t ∷ []

-- Requests are passed from one middleware to the next.
abbrev pub Next : Type 0 → Type 0
Next S = Context → World S → World S × Answer

-- UserFor, with the token that it stashes for Rotated.
unfoldable pub user_for : Server → Env → Jar → Store → Store × Outcome Verified
unfolding read_cookie verify
user_for server env jar s = elim (read_cookie jar) [
  | none ↦ (s, err no_session)
  | some token ↦ verify server.sessions env.session_bad env.fresh s token env.now
]

unfoldable pub org_of : Option Membership → Option ℕ
org_of none = none
org_of (some m) = some m.org_id

unfoldable pub body_of : Option (List ℕ) → List ℕ
body_of none = []
body_of (some b) = b

module _ {S : Type 0} (server : Server) (env : Env) (r : Incoming) where
  -- Authenticate, once UserFor has returned.
  unfoldable pub authenticated : Next S → Context → World S → Outcome Verified → World S × Answer
  unfolding unauthorised rotated_cookie
  authenticated next ctx w (err e) = (w, ([], failed (unauthorised e)))
  authenticated next ctx w (ok (s, rotated)) =
      let (v, (cookies, ending)) = next (record ctx { caller = some s.user_id }) w in
      (v, (rotated_cookie server.cookies rotated ++ cookies, ending))

  -- Authenticate
  unfoldable pub authenticate : Next S → Next S
  unfolding authenticated user_for
  authenticate next ctx w =
      let (s, o) = user_for server env r.jar w.sessions in
      authenticated next ctx (record w { sessions = s }) o

  -- The RateLimiter with KeyByOrg, once the bucket has answered.
  unfoldable pub limited : Next S → Context → World S → Rate.Verdict → World S × Answer
  limited next ctx w Rate.Verdict.served = next ctx w
  limited next ctx w (Rate.Verdict.refused e) = (w, ([], failed e))

  -- The RateLimiter with KeyByOrg
  unfoldable pub limit_rate : Next S → Next S
  unfolding limited limit_request
  limit_rate next ctx w =
      let (b, v) =
        limit_request server.limit (key_by_org ctx.scope_org r.peer r.host) env.now w.buckets in
      limited next ctx (record w { buckets = b }) v

  -- Require, once it is decided.
  unfoldable pub required : Next S → Context → World S → Verdict → World S × Answer
  required next ctx w panics = (w, ([], panicked))
  required next ctx w (refused e) = (w, ([], failed e))
  required next ctx w (granted m) =
      next (record ctx { membership = some m; scope_org = server.format m.org_id }) w

  -- Require
  unfoldable pub require_action : Action → Next S → Next S
  unfolding required
  require_action action next ctx w =
      required next ctx w (require env.directory_bad w.directory action ctx.caller r.names)

  -- The handler, with what Wrap does round it.
  unfoldable pub run_replayed : Handler S → Next S
  unfolding org_of serve
  run_replayed handler ctx w =
      let (t, app, reply) =
        serve server.keys handler env.key_bad env.now
          (record r.sent { org = org_of ctx.membership }) w.keys w.app in
      (record w { keys = t; app = app }, ([], handled reply))

  -- The handler alone.
  unfoldable pub run_plain : Handler S → Next S
  unfolding body_of
  run_plain handler ctx w =
      let (app, out) = handler (body_of r.sent.body) w.app in
      (record w { app = app }, ([], handled (Wrap.fresh out)))

  -- A route's own middlewares, where the handler may read the context.
  unfoldable pub run_route : Route → (Context → Handler S) → Next S
  unfolding run_replayed run_plain
  run_route route handler ctx w =
      if route.replayed then run_replayed (handler ctx) ctx w else run_plain (handler ctx) ctx w

  unfoldable pub guard_route : Option Action → Next S → Next S
  unfolding require_action
  guard_route none next = next
  guard_route (some action) next = require_action action next

  -- A request to a route of the authed subtree.
  unfoldable pub serve_authed : Route → (Context → Handler S) → World S → World S × Answer
  unfolding authenticate limit_rate guard_route run_route
  serve_authed route handler w =
      authenticate (limit_rate (guard_route route.action (run_route route handler))) background w

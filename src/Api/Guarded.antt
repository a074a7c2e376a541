-- ===== src/Api/Guarded.antt =====
-- Whom the handler of a signed-in route runs for.
use cofound.Prelude.{
  ℕ, ◌<◌, ◌≡◌, ◌⊎◌, refl, true, Option, none, some, arith, inl, inr, Option-cases, Bool-cases,
  subst, ap, ◌∙◌,
}
use cofound.Errs.Outcome.{Outcome, ok, err}
use cofound.Auth.Token.{Token}
use cofound.Auth.Session.Store.{Row, Store}
use cofound.Auth.Session.Ops.{Verified, by_token}
use cofound.Auth.Session.Invariant.{IsLinked}
use cofound.Auth.Session.Deadline.{Admitted, verify-Admitted}
use cofound.Auth.Cookies.{read_cookie}
use cofound.Tenancy.Roles.{Action, can}
use cofound.Tenancy.Directory.{Membership}
use cofound.Tenancy.Resolve.{Verdict, panics, refused, granted, require}
use cofound.Tenancy.Resolve.Search.{IsTrue}
use cofound.Tenancy.Resolve.Sound.{require-IsTrue}
use cofound.Httpx.RateLimit as Rate
use cofound.Httpx.RateLimit.{MemoryStore, limit_request, key_by_org, key_by_ip}
use cofound.Idempotency.Wrap.{Handler}
use cofound.Api.Pipeline.{
  Route, Incoming, Env, Context, background, Server, World, Next, user_for, authenticated,
  authenticate, limited, limit_rate, required, require_action, run_route, run_replayed, run_plain,
  guard_route, serve_authed,
}

-- The state that handlers change, and what replays their answers, are as they were.
abbrev pub SameApp : {S : Type 0} → World S → World S → Type 0
SameApp v w = (v.app ≡ w.app) × (v.keys ≡ w.keys)

user_for-ok :
    (server : Server) (env : Env) (r : Incoming) (s : Store) (v : Verified)
    → IsLinked s
    → (user_for server env r.jar s).1 ≡ ok v
    → (t : Token) × (row : Row) × (read_cookie r.jar ≡ some t)
      × (by_token server.sessions t s.rows ≡ some row)
      × Admitted row env.now v.0
unfolding user_for
user_for-ok server env r s v inv e = elim (Option-cases (read_cookie r.jar)) [
  | inl n ↦ absurd (ground arith)
  | inr (t, held) ↦
      let (row, known, in_time) =
        verify-Admitted server.sessions env.session_bad env.fresh s t env.now v inv
          (ground (arith)) in
      (t, row, held, known, in_time)
]

-- What a request by the peer's address does to the buckets.
abbrev pub by_ip : Server → Env → Incoming → MemoryStore → MemoryStore
by_ip server env r b = (limit_request server.limit (key_by_ip r.peer r.host) env.now b).0

module _ {S : Type 0} (server : Server) (env : Env) (r : Incoming) where
  -- The request has a live session, and its user is a member of an org with a role that may do the
  -- action.
  pub record IsAllowed (action : Action) (w : World S) : Type 0 where
    pub token : Token
    pub row : Row
    pub membership : Membership
    pub held : read_cookie r.jar ≡ some token
    pub known : by_token server.sessions token w.sessions.rows ≡ some row
    pub live : (env.now < row.expires_at) × (row.revoked_at ≡ none)
    pub member : IsTrue w.directory row.user_id membership
    pub allowed : can membership.role action ≡ true

  -- Require lets the caller of the context through.
  abbrev Granted : Action → Option ℕ → World S → Type 0
  Granted action caller w =
      (m : Membership) × (require env.directory_bad w.directory action caller r.names ≡ granted m)

  required-split :
      (next : Next S) (ctx : Context) (w : World S) (v : Verdict)
      → SameApp (required server env r next ctx w v).0 w ⊎ ((m : Membership) × (v ≡ granted m))
  unfolding required
  required-split next ctx w panics = inl (refl, refl)
  required-split next ctx w (refused e) = inl (refl, refl)
  required-split next ctx w (granted m) = inr (m, refl)

  require_action-split :
      (action : Action) (next : Next S) (ctx : Context) (w : World S)
      → SameApp (require_action server env r action next ctx w).0 w ⊎ Granted action ctx.caller w
  unfolding require_action
  require_action-split action next ctx w = required-split next ctx w _

  limited-split :
      (action : Action) (next : Next S) (ctx : Context) (w : World S) (v : Rate.Verdict)
      → SameApp (limited server env r (require_action server env r action next) ctx w v).0 w
        ⊎ Granted action ctx.caller w
  unfolding limited
  limited-split action next ctx w Rate.Verdict.served = require_action-split action next ctx w
  limited-split action next ctx w (Rate.Verdict.refused e) = inl (refl, refl)

  limit_rate-split :
      (action : Action) (next : Next S) (ctx : Context) (w : World S)
      → SameApp (limit_rate server env r (require_action server env r action next) ctx w).0 w
        ⊎ Granted action ctx.caller w
  unfolding limit_rate
  limit_rate-split action next ctx w = limited-split action next ctx _ _

  authenticated-split :
      (action : Action) (next : Next S) (ctx : Context) (w : World S) (o : Outcome Verified)
      → SameApp
          (authenticated server env r
            (limit_rate server env r (require_action server env r action next))
            ctx
            w
            o).0
          w
        ⊎ ((v : Verified) × (o ≡ ok v) × Granted action (some v.0.user_id) w)
  unfolding authenticated
  authenticated-split action next ctx w (err e) = inl (refl, refl)
  authenticated-split action next ctx w (ok v) =
      elim (limit_rate-split action next (record ctx { caller = some v.0.user_id }) w) [
        | inl same ↦ inl same
        | inr g ↦ inr (v, refl, g)
      ]

  Granted-IsAllowed :
      (action : Action) (w : World S) (v : Verified)
      → IsLinked w.sessions
      → (user_for server env r.jar w.sessions).1 ≡ ok v
      → Granted action (some v.0.user_id) w
      → IsAllowed action w
  Granted-IsAllowed action w v inv e (m, g) =
      let (t, row, held, known, (own, last, before, idle, live)) =
        user_for-ok server env r w.sessions v inv e in
      let (user, is, member, org, may) =
        require-IsTrue env.directory_bad w.directory action (some v.0.user_id) r.names m g in
      let same : user ≡ row.user_id = ground (arith) in
      record {
        token = t;
        row = row;
        membership = m;
        held = held;
        known = known;
        live = (idle, live);
        member = subst (λ (u : ℕ). IsTrue w.directory u m) same member;
        allowed = may;
      }

  -- A request to a route that names an action changes what handlers keep, or a stored answer, only
  -- if it is allowed: it carries the token of a live session, whose user is a member of an org with
  -- a role that may do the action. Otherwise, be it refused by Authenticate, by the rate limiter or
  -- by Require, the handler has not run.
  pub serve_authed-IsAllowed :
      (route : Route) (handler : Context → Handler S) (action : Action) (w : World S)
      → IsLinked w.sessions
      → route.action ≡ some action
      → SameApp (serve_authed server env r route handler w).0 w ⊎ IsAllowed action w
  unfolding serve_authed guard_route authenticate
  serve_authed-IsAllowed route handler action w inv e =
      let next = run_route server env r route handler in
      let (s, o) = user_for server env r.jar w.sessions in
      elim (authenticated-split action next background (record w { sessions = s }) o) [
        | inl same ↦ inl (rw e same)
        | inr (v, f, g) ↦ inr (Granted-IsAllowed action w v inv f g)
      ]

  run_route-buckets :
      (route : Route) (handler : Context → Handler S) (ctx : Context) (w : World S)
      → (run_route server env r route handler ctx w).0.buckets ≡ w.buckets
  unfolding run_route run_replayed run_plain
  run_route-buckets route handler ctx w = elim (Bool-cases route.replayed) [
    | inl b ↦ rw b refl
    | inr b ↦ rw b refl
  ]

  required-buckets :
      (route : Route) (handler : Context → Handler S) (ctx : Context) (w : World S) (v : Verdict)
      → (required server env r (run_route server env r route handler) ctx w v).0.buckets ≡ w.buckets
  unfolding required
  required-buckets route handler ctx w panics = refl
  required-buckets route handler ctx w (refused e) = refl
  required-buckets route handler ctx w (granted m) = run_route-buckets route handler _ w

  guarded-buckets :
      (o : Option Action) (route : Route) (handler : Context → Handler S) (ctx : Context)
      (w : World S)
      → (guard_route server env r o (run_route server env r route handler) ctx w).0.buckets
        ≡ w.buckets
  unfolding guard_route require_action
  guarded-buckets none route handler ctx w = run_route-buckets route handler ctx w
  guarded-buckets (some action) route handler ctx w = required-buckets route handler ctx w _

  limited-buckets :
      (route : Route) (handler : Context → Handler S) (ctx : Context) (w : World S)
      (v : Rate.Verdict)
      → (limited server env r
          (guard_route server env r route.action (run_route server env r route handler))
          ctx
          w
          v).0.buckets
        ≡ w.buckets
  unfolding limited
  limited-buckets route handler ctx w Rate.Verdict.served =
      guarded-buckets route.action route handler ctx w
  limited-buckets route handler ctx w (Rate.Verdict.refused e) = refl

  authenticated-buckets :
      (route : Route) (handler : Context → Handler S) (w : World S) (v : Verified)
      → let limiter =
          limit_rate server env r
            (guard_route server env r route.action (run_route server env r route handler)) in
        (authenticated server env r limiter background w (ok v)).0.buckets
        ≡ by_ip server env r w.buckets
  unfolding authenticated limit_rate key_by_org
  authenticated-buckets route handler w v = limited-buckets route handler _ _ _

  -- A request to a signed-in route whose session Authenticate accepts is counted in the bucket of
  -- its peer's address and in no other, whatever its org: the limiter asks for the org of the scope
  -- before Require has put one there.
  pub serve_authed-by_ip :
      (route : Route) (handler : Context → Handler S) (w : World S) (v : Verified)
      → (user_for server env r.jar w.sessions).1 ≡ ok v
      → (serve_authed server env r route handler w).0.buckets ≡ by_ip server env r w.buckets
  unfolding serve_authed authenticate
  serve_authed-by_ip route handler w v e =
      let s = (user_for server env r.jar w.sessions).0 in
      let limiter =
        limit_rate server env r
          (guard_route server env r route.action (run_route server env r route handler)) in
      ap
        (λ o.
          (authenticated server env r limiter background (record w { sessions = s }) o).0.buckets)
        e
      ∙ authenticated-buckets route handler (record w { sessions = s }) v

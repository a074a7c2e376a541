-- ===== src/Auth/Handlers/Callback.antt =====
-- services/api/internal/auth/handlers.go: startGoogle and completeGoogle. The browser arrives with
-- its cookies and the query's error, state and code.
use Prim.Native.Char.{code}
use Prim.Native.String.{◌++◌}
use cofound.Prelude.{
  ℕ, ◌*◌, ◌/◌, String, List, ◌||◌, not, Option, none, some, ◌=s◌, ◌==◌, lookup, if◌then◌else◌,
}
use cofound.Errs.Types.{Fault, GoError, leaf, typed}
use cofound.Errs.Outcome.{Outcome, ok, err}
use cofound.Errs.Build.{internal, code_of}
use cofound.Auth.Token.{Token}
use cofound.Auth.Session.Store.{Session, second}
use cofound.Auth.Session.Ops.{issue}
use cofound.Auth.Cookies.{SetCookie, lasts, gone, Jar, set_cookie}
use cofound.Auth.Google.{
  Challenge, GoogleIdentity, new_challenge, authorize_url, exchange, upsert_identity,
}
use cofound.Auth.Handlers.{
  Handlers, World, Env, Reply, location, page, Handled, put_cookie, record_sign_in,
}
use cofound.Httpx.Writer.{add_header, write_header, write}

abbrev pub challenge_cookie : String
challenge_cookie = "halyard_oauth_challenge"

-- challengeTTL
abbrev pub challenge_ttl : ℕ
challenge_ttl = 10 * 60 * second

-- The query of the callback; a parameter that is absent is empty.
pub record Query : Type 0 where
  pub error : String
  pub state : String
  pub code : String

-- cut, at the first dot.
unfoldable pub cut_dot : String → Option (String × String)
cut_dot String.[] = none
cut_dot (String.◌∷◌ c s) =
    let rest = cut_dot s in
    if code c == b'.'
    then some ("", s)
    else elim rest [ none ↦ none | some (a, b) ↦ some (String.◌∷◌ c a, b) ]

unfoldable pub checked_parts : String × String → Option Challenge
checked_parts (state, verifier) =
    if state =s "" || verifier =s ""
    then none
    else some (record { state = state; verifier = verifier })

-- readChallenge
unfoldable pub read_challenge : Jar → Option Challenge
unfolding lookup cut_dot checked_parts
read_challenge jar = elim (lookup challenge_cookie jar) [
  | none ↦ none
  | some v ↦ elim (cut_dot v) [ none ↦ none | some p ↦ checked_parts p ]
]

-- The query that an authorisation URL carries, encoded by net/url.
abbrev pub Encode : Type 0
Encode = String × List (String × String) → String

-- http.Redirect, of a GET.
unfoldable pub redirect : String → Reply → Reply
unfolding add_header write_header write
redirect target r = write (page target) (write_header 303 (add_header (location target) r))

module _ (h : Handlers) where
  unfoldable pub challenge_set : Challenge → SetCookie
  challenge_set c = record {
    name = challenge_cookie;
    value = c.state ++ ("." ++ c.verifier);
    path = "/v1/auth/google";
    secure = h.cookies.secure;
    max_age = lasts (challenge_ttl / second);
  }

  -- What the deferred call of completeGoogle sets.
  unfoldable pub challenge_clear : SetCookie
  challenge_clear = record {
    name = challenge_cookie;
    value = "";
    path = "/v1/auth/google";
    secure = h.cookies.secure;
    max_age = gone;
  }

  -- startGoogle
  unfoldable pub start_google : Encode → Env → World → Reply → Handled
  unfolding challenge_set add_header redirect
  start_google encode env w r = elim (new_challenge env.fresh env.second_fresh) [
    | err e ↦ (w, r, err e)
    | ok c ↦ elim (authorize_url h.google c) [
      | err e ↦ (w, r, err e)
      | ok u ↦ (w, redirect (encode u) (put_cookie (challenge_set c) r), ok tt)
    ]
  ]

  abbrev pub unusable_origin : GoError
  unusable_origin =
      typed (internal (leaf (Fault.driver "auth: CONSOLE_ORIGIN is not a usable URL")))

  -- redirectToConsole
  unfoldable pub redirect_to_console : String → World → Reply → Handled
  unfolding redirect
  redirect_to_console reason w r = elim h.origin [
    | none ↦ (w, r, err unusable_origin)
    | some base ↦ (
      w,
      redirect (base ++ ("/auth/callback" ++ (if reason =s "" then "" else "?error=" ++ reason))) r,
      ok tt,
    )
  ]

  -- completeGoogle, once Issue has returned.
  unfoldable pub complete_issued : Env → ℕ → World → Reply → Outcome (Token × Session) → Handled
  unfolding set_cookie add_header record_sign_in redirect_to_console
  complete_issued env user w r (err e) = (w, r, err e)
  complete_issued env user w r (ok (token, s)) =
      redirect_to_console "" (record_sign_in h env w user "google")
        (put_cookie (set_cookie h.cookies token) r)

  -- completeGoogle, once Upsert has returned.
  unfoldable pub complete_user : Env → World → Reply → Outcome ℕ → Handled
  unfolding redirect_to_console complete_issued
  complete_user env w r (err e) =
      if code_of e =s "forbidden" then redirect_to_console "email_unverified" w r else (w, r, err e)
  complete_user env w r (ok user) =
      let (s, o) = issue h.sessions env.session_bad env.fresh w.sessions user env.now in
      complete_issued env user (record w { sessions = s }) r o

  -- completeGoogle, once Exchange has returned.
  unfoldable pub complete_identity : Env → World → Reply → Outcome GoogleIdentity → Handled
  unfolding redirect_to_console complete_user
  complete_identity env w r (err e) = redirect_to_console "exchange_failed" w r
  complete_identity env w r (ok id) =
      let (a, o) = upsert_identity env.google_bad id env.now w.accounts in
      complete_user env (record w { accounts = a }) r o

  -- completeGoogle, once the challenge is read. Equal compares the bytes of the states.
  unfoldable pub complete_challenge : Env → Query → Option Challenge → World → Reply → Handled
  unfolding redirect_to_console complete_identity
  complete_challenge env q none w r = redirect_to_console "expired" w r
  complete_challenge env q (some c) w r =
      if not (c.state =s q.state)
      then redirect_to_console "state_mismatch" w r
      else complete_identity env w r (exchange h.google env.now q.code c)

  -- completeGoogle but for what it defers.
  unfoldable pub complete_google_body : Env → Query → Jar → World → Reply → Handled
  unfolding redirect_to_console complete_challenge
  complete_google_body env q jar w r =
      if not (q.error =s "")
      then redirect_to_console "declined" w r
      else complete_challenge env q (read_challenge jar) w r

  -- The deferred http.SetCookie, which runs when the body has returned.
  unfoldable pub deferred : Handled → Handled
  unfolding challenge_clear add_header
  deferred (w, r, o) = (w, put_cookie challenge_clear r, o)

  -- completeGoogle
  unfoldable pub complete_google : Env → Query → Jar → World → Reply → Handled
  unfolding deferred complete_google_body
  complete_google env q jar w r = deferred (complete_google_body env q jar w r)

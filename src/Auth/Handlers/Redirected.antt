-- ===== src/Auth/Handlers/Redirected.antt =====
-- services/api/internal/auth/handlers.go: the cookies that the callback of Google sends.
use cofound.Prelude.{
  ℕ, String, ◌≡◌, ◌≢◌, refl, false, Option, none, some, List, [], ◌∷◌, ◌=s◌, arith, inl, inr, In,
  In-append, Option-cases, Bool-cases, eq_iff, and_last, if◌then◌else◌,
}
use Prim.Native.String.{◌++◌ as ◌++s◌}
use cofound.Errs.Outcome.{Outcome, ok, err}
use cofound.Auth.Token.{Token}
use cofound.Auth.Session.Store.{Session}
use cofound.Auth.Cookies.{Jar, SetCookie, set_cookie, name_of, cookie_name, insecure_cookie_name}
use cofound.Auth.Google.{GoogleIdentity, Challenge}
use cofound.Errs.Build.{code_of}
use cofound.Httpx.Writer.{wrap, freeze, add_header, write_header, write}
use cofound.Auth.Handlers.{
  Handlers, World, Env, Reply, Handled, Header, cookie, location, put_cookie,
}
use cofound.Auth.Handlers.Callback.{
  challenge_cookie, Query, redirect, redirect_to_console, complete_issued, complete_user,
  complete_identity, complete_challenge, complete_google_body, complete_google, deferred,
}

-- No cookie of the challenge's name is among the headers.
abbrev pub LacksChallenge : List Header → Type 0
LacksChallenge hs = (c : SetCookie) → In (cookie c) hs → c.name ≢ challenge_cookie

-- Nothing has gone out, and the challenge's cookie is not set.
abbrev pub IsUnsent : Reply → Type 0
IsUnsent r = (r.wrote ≡ false) × (r.sent ≡ none) × LacksChallenge r.header

-- A call that returns no error has sent the browser on, without the challenge's cookie.
abbrev pub KeepsChallenge : Handled → Type 0
KeepsChallenge x =
    x.2 ≡ ok tt → (hs : List Header) × (x.1.sent ≡ some (303, hs)) × LacksChallenge hs

is_location : (c : SetCookie) (target : String) → cookie c ≢ location target
is_location c target e = cc

same_cookie : (c d : SetCookie) → cookie c ≡ cookie d → c ≡ d
same_cookie c d e = cc

redirect-sent :
    (target : String) (r : Reply)
    → r.wrote ≡ false
    → r.sent ≡ none
    → (redirect target r).sent ≡ some (303, and_last r.header (location target))
unfolding redirect add_header write_header write freeze
redirect-sent target r a b = ground arith

LacksChallenge-location :
    (hs : List Header) (target : String)
    → LacksChallenge hs
    → LacksChallenge (and_last hs (location target))
LacksChallenge-location hs target lacks c i =
    elim (In-append (cookie c) hs (location target ∷ []) i) [
      | inl j ↦ lacks c j
      | inr (inl e) ↦ absurd (is_location c target e)
      | inr (inr k) ↦ absurd k
    ]

module _ (h : Handlers) where
  to_console :
      (reason : String) (w : World) (r : Reply)
      → IsUnsent r
      → KeepsChallenge (redirect_to_console h reason w r)
  unfolding redirect_to_console
  to_console reason w r un e = elim (Option-cases h.origin) [
    | inl n ↦ absurd (ground arith)
    | inr (base, f) ↦
        let target =
          base ++s ("/auth/callback" ++s (if reason =s "" then "" else "?error=" ++s reason)) in
        (
          and_last r.header (location target),
          ground (arith, redirect-sent target r un.0 un.1),
          LacksChallenge-location r.header target un.2,
        )
  ]

  session_cookie-name : (token : Token) → (set_cookie h.cookies token).name ≢ challenge_cookie
  unfolding set_cookie name_of
  session_cookie-name token e = elim (Bool-cases h.cookies.secure) [
    | inl b ↦ ground (arith, eq_iff cookie_name challenge_cookie)
    | inr b ↦ ground (arith, eq_iff insecure_cookie_name challenge_cookie)
  ]

  LacksChallenge-session :
      (hs : List Header) (token : Token)
      → LacksChallenge hs
      → LacksChallenge (and_last hs (cookie (set_cookie h.cookies token)))
  LacksChallenge-session hs token lacks c i =
      elim (In-append (cookie c) hs (cookie (set_cookie h.cookies token) ∷ []) i) [
        | inl j ↦ lacks c j
        | inr (inl e) ↦ rw (same_cookie c _ e) (session_cookie-name token)
        | inr (inr k) ↦ absurd k
      ]

  session_put-IsUnsent :
      (token : Token) (r : Reply)
      → IsUnsent r
      → IsUnsent (put_cookie (set_cookie h.cookies token) r)
  unfolding add_header
  session_put-IsUnsent token r un = (un.0, un.1, LacksChallenge-session r.header token un.2)

  issued-KeepsChallenge :
      (env : Env) (user : ℕ) (w : World) (r : Reply) (o : Outcome (Token × Session))
      → IsUnsent r
      → KeepsChallenge (complete_issued h env user w r o)
  unfolding complete_issued
  issued-KeepsChallenge env user w r (err x) un = λ e. absurd (ground arith)
  issued-KeepsChallenge env user w r (ok (token, s)) un =
      to_console "" _ _ (session_put-IsUnsent token r un)

  user-KeepsChallenge :
      (env : Env) (w : World) (r : Reply) (o : Outcome ℕ)
      → IsUnsent r
      → KeepsChallenge (complete_user h env w r o)
  unfolding complete_user
  user-KeepsChallenge env w r (err x) un = elim (Bool-cases (code_of x =s "forbidden")) [
    | inl b ↦ rw b (to_console "email_unverified" w r un)
    | inr b ↦ rw b (λ e. absurd (ground arith))
  ]
  user-KeepsChallenge env w r (ok user) un = issued-KeepsChallenge env user _ r _ un

  identity-KeepsChallenge :
      (env : Env) (w : World) (r : Reply) (o : Outcome GoogleIdentity)
      → IsUnsent r
      → KeepsChallenge (complete_identity h env w r o)
  unfolding complete_identity
  identity-KeepsChallenge env w r (err x) un = to_console "exchange_failed" w r un
  identity-KeepsChallenge env w r (ok id) un = user-KeepsChallenge env _ r _ un

  challenge-KeepsChallenge :
      (env : Env) (q : Query) (o : Option Challenge) (w : World) (r : Reply)
      → IsUnsent r
      → KeepsChallenge (complete_challenge h env q o w r)
  unfolding complete_challenge
  challenge-KeepsChallenge env q none w r un = to_console "expired" w r un
  challenge-KeepsChallenge env q (some c) w r un = elim (Bool-cases (c.state =s q.state)) [
    | inl b ↦ rw b (identity-KeepsChallenge env w r _ un)
    | inr b ↦ rw b (to_console "state_mismatch" w r un)
  ]

  body-KeepsChallenge :
      (env : Env) (q : Query) (jar : Jar) (w : World) (r : Reply)
      → IsUnsent r
      → KeepsChallenge (complete_google_body h env q jar w r)
  unfolding complete_google_body
  body-KeepsChallenge env q jar w r un = elim (Bool-cases (q.error =s "")) [
    | inl b ↦ rw b (challenge-KeepsChallenge env q _ w r un)
    | inr b ↦ rw b (to_console "declined" w r un)
  ]

  -- On a response that nothing was done to, whenever the callback redirects the browser, signed in
  -- or with a reason why not, what it sends sets no cookie of the challenge's name: the deferred
  -- call that clears the challenge runs after the status has gone out, so the browser keeps it.
  pub complete_google-KeepsChallenge :
      (env : Env) (q : Query) (jar : Jar) (w : World)
      → KeepsChallenge (complete_google h env q jar w wrap)
  unfolding complete_google deferred add_header wrap
  complete_google-KeepsChallenge env q jar w =
      body-KeepsChallenge env q jar w wrap (refl, refl, λ c i. absurd i)

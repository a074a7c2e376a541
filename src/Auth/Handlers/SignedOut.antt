-- ===== src/Auth/Handlers/SignedOut.antt =====
-- services/api/internal/auth/handlers.go: what signing out leaves of a session.
use cofound.Prelude.{ℕ, ◌≡◌, ◌≢◌, false, none, some, and_last, arith, inl, inr, Option}
use cofound.Errs.Outcome.{ok, Outcome-cases}
use cofound.Auth.Token.{Token}
use cofound.Auth.Session.Store.{Refuses}
use cofound.Auth.Session.Ops.{Verified, verify}
use cofound.Auth.Session.Admin.{revoke}
use cofound.Auth.Session.Ended.{IsUnforked, revoke-verify, verify-Ended}
use cofound.Auth.Cookies.{Jar, clear_cookie, read_cookie}
use cofound.Auth.Handlers.{Handlers, World, Env, Reply, cookie, cleared, sign_out_of, sign_out}
use cofound.Httpx.Writer.{freeze, add_header, write_header, no_content}

module _ (h : Handlers) where
  cleared-sent :
      (w : World) (r : Reply)
      → r.wrote ≡ false
      → r.sent ≡ none
      → (cleared h w r).1.sent ≡ some (204, and_last r.header (cookie (clear_cookie h.cookies)))
  unfolding cleared add_header no_content write_header freeze
  cleared-sent w r a b = ground arith

  sign_out_of-ok :
      (env : Env) (w : World) (r : Reply) (v : Verified) (u : Unit {0})
      → (sign_out_of h env w r (ok v)).2 ≡ ok u
      → ((revoke env.session_bad w.sessions v.0.id "signed out" env.now).1 ≡ ok u)
        × ((sign_out_of h env w r (ok v)).0.sessions
            ≡ (revoke env.session_bad w.sessions v.0.id "signed out" env.now).0)
        × ((sign_out_of h env w r (ok v)).1 ≡ (cleared h w r).1)
  unfolding sign_out_of cleared
  sign_out_of-ok env w r v u e =
      elim (Outcome-cases (revoke env.session_bad w.sessions v.0.id "signed out" env.now).1) [
        | inl (a, f) ↦ (ground (arith), ground (arith), ground (arith))
        | inr (x, f) ↦ absurd (ground arith)
      ]

  -- When a browser whose token Verify lets in signs out and no error is returned, it is told to
  -- delete the session's cookie, and on the table that this leaves Verify refuses the token at any
  -- time, be it the token of the session itself, one that this very call has rotated, or one in its grace window: the successor
  -- is revoked with it. The table must be unforked.
  pub sign_out-refused :
      (env : Env) (jar : Jar) (w : World) (r : Reply) (token : Token) (v v' : Verified)
      (bad : Refuses) (fresh : Option Token) (now : ℕ)
      → IsUnforked w.sessions
      → r.wrote ≡ false
      → r.sent ≡ none
      → read_cookie jar ≡ some token
      → (verify h.sessions env.session_bad env.fresh w.sessions token env.now).1 ≡ ok v
      → (sign_out h env jar w r).2 ≡ ok tt
      → ((sign_out h env jar w r).1.sent
          ≡ some (204, and_last r.header (cookie (clear_cookie h.cookies))))
        × ((verify h.sessions bad fresh (sign_out h env jar w r).0.sessions token now).1 ≢ ok v')
  unfolding sign_out
  sign_out-refused env jar w r token v v' bad fresh now inv a b held seen e =
      let t = (verify h.sessions env.session_bad env.fresh w.sessions token env.now).0 in
      let goes : sign_out h env jar w r ≡ sign_out_of h env (record w { sessions = t }) r (ok v) =
        ground arith in
      let (revoked, sessions, reply) =
        sign_out_of-ok env (record w { sessions = t }) r v tt (rw goes at e) in
      (
        rw (goes, reply) (cleared-sent (record w { sessions = t }) r a b),
        rw (goes, sessions)
            (verify-Ended h.sessions bad fresh _ token now v' (
              revoke-verify h.sessions env.session_bad env.fresh w.sessions token env.now
                "signed out" v tt inv seen revoked)),
      )

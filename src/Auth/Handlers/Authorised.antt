-- ===== src/Auth/Handlers/Authorised.antt =====
-- services/api/internal/auth/handlers.go: when the callback of Google signs someone in.
use cofound.Prelude.{
  ℕ, String, ◌≡◌, ◌⊎◌, refl, true, some, ◌=s◌, arith, inl, inr, Option-cases, Bool-cases, eq_iff,
}
use cofound.Errs.Outcome.{Outcome, ok, err, Outcome-cases}
use cofound.Auth.Token.{Token}
use cofound.Auth.Session.Store.{Session, Store}
use cofound.Auth.Session.Ops.{issue}
use cofound.Auth.Cookies.{Jar}
use cofound.Auth.Google.{Challenge, GoogleIdentity, Refuses, Accounts, exchange, upsert_identity}
use cofound.Auth.Handlers.{Handlers, World, Env, Reply, record_sign_in}
use cofound.Auth.Handlers.Callback.{
  Query, read_challenge, redirect_to_console, complete_issued, complete_user, complete_identity,
  complete_challenge, complete_google_body, complete_google, deferred,
}

upsert-verified :
    (bad : Refuses) (id : GoogleIdentity) (now : ℕ) (w : Accounts) (u : ℕ)
    → (upsert_identity bad id now w).1 ≡ ok u
    → id.verified ≡ true
unfolding upsert_identity
upsert-verified bad id now w u e = ground arith

module _ (h : Handlers) where
  -- The session that the callback starts, and what it was started on.
  pub record IsEarned (env : Env) (q : Query) (jar : Jar) (w : World) (s : Store) : Type 0 where
    pub challenge : Challenge
    pub identity : GoogleIdentity
    pub user : ℕ
    pub held : read_challenge jar ≡ some challenge
    pub same_state : challenge.state ≡ q.state
    pub exchanged : exchange h.google env.now q.code challenge ≡ ok identity
    pub verified : identity.verified ≡ true
    pub upserted : (upsert_identity env.google_bad identity env.now w.accounts).1 ≡ ok user
    pub issued : s ≡ (issue h.sessions env.session_bad env.fresh w.sessions user env.now).0

  redirect-sessions :
      (reason : String) (w : World) (r : Reply) → (redirect_to_console h reason w r).0 ≡ w
  unfolding redirect_to_console
  redirect-sessions reason w r = ground arith

  record-sessions :
      (env : Env) (w : World) (user : ℕ) (method : String)
      → (record_sign_in h env w user method).sessions ≡ w.sessions
  unfolding record_sign_in
  record-sessions env w user method = ground arith

  issued-sessions :
      (env : Env) (user : ℕ) (w : World) (r : Reply) (o : Outcome (Token × Session))
      → (complete_issued h env user w r o).0.sessions ≡ w.sessions
  unfolding complete_issued
  issued-sessions env user w r (err e) = refl
  issued-sessions env user w r (ok (token, s)) =
      rw (redirect-sessions "" (record_sign_in h env w user "google") _)
        (record-sessions env w user "google")

  user-sessions :
      (env : Env) (w : World) (r : Reply) (o : Outcome ℕ)
      → ((complete_user h env w r o).0.sessions ≡ w.sessions)
        ⊎ ((user : ℕ) × (o ≡ ok user)
            × ((complete_user h env w r o).0.sessions
                ≡ (issue h.sessions env.session_bad env.fresh w.sessions user env.now).0))
  unfolding complete_user
  user-sessions env w r (err e) = inl (ground (arith, redirect-sessions "email_unverified" w r))
  user-sessions env w r (ok user) = inr (user, refl, issued-sessions env user _ r _)

  identity-sessions :
      (env : Env) (w : World) (r : Reply) (id : GoogleIdentity)
      → ((complete_identity h env w r (ok id)).0.sessions ≡ w.sessions)
        ⊎ ((user : ℕ) × ((upsert_identity env.google_bad id env.now w.accounts).1 ≡ ok user)
            × ((complete_identity h env w r (ok id)).0.sessions
                ≡ (issue h.sessions env.session_bad env.fresh w.sessions user env.now).0))
  unfolding complete_identity
  identity-sessions env w r id =
      user-sessions env
        (record w { accounts = (upsert_identity env.google_bad id env.now w.accounts).0 }) r
        (upsert_identity env.google_bad id env.now w.accounts).1

  -- The callback starts a session in one case only: the browser held a challenge whose state is that
  -- of the query, the code was exchanged with its verifier for an identity with a verified address,
  -- and Upsert gave the user that the session is issued for. In every other case, also when the
  -- query holds an error or a statement fails, the sessions are as they were.
  pub complete_google-IsEarned :
      (env : Env) (q : Query) (jar : Jar) (w : World) (r : Reply)
      → ((complete_google h env q jar w r).0.sessions ≡ w.sessions)
        ⊎ IsEarned env q jar w (complete_google h env q jar w r).0.sessions
  unfolding complete_google deferred complete_google_body complete_challenge complete_identity
  complete_google-IsEarned env q jar w r = elim (Bool-cases (q.error =s "")) [
    | inr b ↦ inl (ground (arith, redirect-sessions "declined" w r))
    | inl b ↦ elim (Option-cases (read_challenge jar)) [
      | inl n ↦ inl (ground (arith, redirect-sessions "expired" w r))
      | inr (c, held) ↦ elim (Bool-cases (c.state =s q.state)) [
        | inr d ↦ inl (ground (arith, redirect-sessions "state_mismatch" w r))
        | inl d ↦ elim (Outcome-cases (exchange h.google env.now q.code c)) [
          | inr (x, f) ↦ inl (ground (arith, redirect-sessions "exchange_failed" w r))
          | inl (id, f) ↦ elim (identity-sessions env w r id) [
            | inl same ↦ inl (ground arith)
            | inr (user, up, s) ↦ inr (record {
              challenge = c;
              identity = id;
              user = user;
              held = held;
              same_state = ground (arith, eq_iff c.state q.state);
              exchanged = f;
              verified = upsert-verified env.google_bad id env.now w.accounts user up;
              upserted = up;
              issued = ground arith;
            })
          ]
        ]
      ]
    ]
  ]

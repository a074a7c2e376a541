-- ===== src/Auth/Session/Atomic.antt =====
-- A session operation that fails changes nothing, whichever statement the database refuses.
use cofound.Prelude.{ℕ, ◌≡◌, Option, arith, Option-cases, inl, inr}
use cofound.Errs.Types.{GoError}
use cofound.Auth.Token.{Token}
use cofound.Auth.Session.Store.{Session, Sessions, Row, Store, Refuses, err}
use cofound.Auth.Session.Ops.{rotate, touch, judge, by_token, verify}

module _ (c : Sessions) (bad : Refuses) where
  rotate-atomic :
      (fresh : Option Token) (s : Store) (old : Session) (now : ℕ) (e : GoError)
      → (rotate c bad fresh s old now).1 ≡ err e
      → (rotate c bad fresh s old now).0 ≡ s
  unfolding rotate
  rotate-atomic fresh s old now e h = ground arith

  touch-atomic :
      (s : Store) (r : Session) (now : ℕ) (e : GoError)
      → (touch c bad s r now).1 ≡ err e
      → (touch c bad s r now).0 ≡ s
  unfolding touch
  touch-atomic s r now e h = ground arith

  judge-atomic :
      (fresh : Option Token) (s : Store) (r : Row) (now : ℕ) (e : GoError)
      → (judge c bad fresh s r now).1 ≡ err e
      → (judge c bad fresh s r now).0 ≡ s
  unfolding judge
  judge-atomic fresh s r now e h =
      ground (arith, rotate-atomic fresh s r.session now e, touch-atomic s r.session now e)

  -- When Verify returns an error, whether the token is refused or any statement fails, the
  -- sessions are as they were: a rotation that fails half way leaves neither a successor nor a
  -- marked predecessor.
  pub verify-atomic :
      (fresh : Option Token) (s : Store) (token : Token) (now : ℕ) (e : GoError)
      → (verify c bad fresh s token now).1 ≡ err e
      → (verify c bad fresh s token now).0 ≡ s
  unfolding verify
  verify-atomic fresh s token now e h = elim (Option-cases (by_token c token s.rows)) [
    | inl n ↦ ground (arith)
    | inr (r, f) ↦ ground (arith, judge-atomic fresh s r now e)
  ]

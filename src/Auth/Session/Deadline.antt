-- ===== src/Auth/Session/Deadline.antt =====
-- Whom a token lets in, and until when.
use cofound.Prelude.{
  ℕ, ◌<◌, ◌≡◌, inl, inr, Bool, true, false, not, Option, none, some, List, [], ◌∷◌, arith, In,
  In-delete, Option-cases,
}
use cofound.Auth.Token.{Token}
use cofound.Auth.Session.Store.{Session, Sessions, Row, Store, Refuses, ok}
use cofound.Auth.Session.Ops.{
  Verified, rotate, rotated_session, touch, touched, latest, select, succeeds, successor, judge,
  is_dead, by_token, verify,
}
use cofound.Auth.Session.Invariant.{IsLinked}
use cofound.Auth.Session.Keeps.{by_token-In}

latest-In : (rs : List Row) (q : Row) → latest rs ≡ some q → In q rs
unfolding latest
latest-In [] q e = cc
latest-In (r ∷ rs) q e = elim (Option-cases (latest rs)) [
  | inl n ↦ ground arith
  | inr (x, f) ↦ ground (arith, latest-In rs x f)
]

select-In : (p : Row → Bool) (q : Row) (rs : List Row) → In q (select p rs) → In q rs × (p q ≡ true)
unfolding select
select-In p q rs i = ground (arith, In-delete (λ r. not (p r)) q rs i)

succeeds_iff :
    (i : ℕ) (q : Row) → succeeds i q ≡ true → (q.rotated_from ≡ some i) × (q.revoked_at ≡ none)
unfolding succeeds
succeeds_iff i q e = ground arith

-- The session of the successor is one of the table, and continues the row.
pub successor_lem :
    (bad : Refuses) (s : Store) (i : ℕ) (v : Verified)
    → successor bad s i ≡ ok v
    → (q : Row) × In q s.rows
      × (v.0 ≡ q.session)
      × (q.rotated_from ≡ some i)
      × (q.revoked_at ≡ none)
unfolding successor
successor_lem bad s i v e = elim (Option-cases (latest (select (succeeds i) s.rows))) [
  | inl n ↦ absurd (ground arith)
  | inr (q, f) ↦
      let (iq, ok_q) = select-In (succeeds i) q s.rows (latest-In _ q f) in
      let (from, live) = succeeds_iff i q ok_q in (q, iq, ground arith, from, live)
]

-- What a session that is let in has in common with the row of its token.
abbrev pub Admitted : Row → ℕ → Session → Type 0
Admitted r now v =
    (v.user_id ≡ r.user_id)
    × (v.absolute_expires_at ≡ r.absolute_expires_at)
    × (now < v.absolute_expires_at)
    × (now < r.expires_at)
    × (r.revoked_at ≡ none)

module _ (c : Sessions) (bad : Refuses) where
  not_dead :
      (r : Row) (now : ℕ)
      → is_dead c r now ≡ false
      → (now < r.absolute_expires_at) × (now < r.expires_at) × (r.revoked_at ≡ none)
  unfolding is_dead
  not_dead r now e = ground arith

  rotate-owner :
      (fresh : Option Token) (s : Store) (o : Session) (now : ℕ) (v : Verified)
      → (rotate c bad fresh s o now).1 ≡ ok v
      → (v.0.user_id ≡ o.user_id) × (v.0.absolute_expires_at ≡ o.absolute_expires_at)
  unfolding rotate rotated_session
  rotate-owner fresh s o now v e = ground arith

  touch-owner :
      (s : Store) (r : Session) (now : ℕ) (v : Verified)
      → (touch c bad s r now).1 ≡ ok v
      → (v.0.user_id ≡ r.user_id) × (v.0.absolute_expires_at ≡ r.absolute_expires_at)
  unfolding touch touched
  touch-owner s r now v e = ground arith

  successor-owner :
      (s : Store) (r : Row) (v : Verified)
      → IsLinked s
      → In r s.rows
      → successor bad s r.id ≡ ok v
      → (v.0.user_id ≡ r.user_id) × (v.0.absolute_expires_at ≡ r.absolute_expires_at)
  successor-owner s r v inv ir e =
      let (q, iq, is, from, _) = successor_lem bad s r.id v e in
      ground (arith, inv.chain q r iq ir from)

  judge-Admitted :
      (fresh : Option Token) (s : Store) (r : Row) (now : ℕ) (v : Verified)
      → IsLinked s
      → In r s.rows
      → (judge c bad fresh s r now).1 ≡ ok v
      → Admitted r now v.0
  unfolding judge
  judge-Admitted fresh s r now v inv ir e = ground (
    arith,
    not_dead r now,
    rotate-owner fresh s r.session now v,
    touch-owner s r.session now v,
    successor-owner s r v inv ir,
  )

  -- When Verify lets a token in, the token is that of a row that is not revoked and whose deadlines
  -- lie ahead; and the session, be it this one, its replacement or its successor in the grace
  -- window, is of the same user with the same absolute deadline, which no rotation moves.
  pub verify-Admitted :
      (fresh : Option Token) (s : Store) (token : Token) (now : ℕ) (v : Verified)
      → IsLinked s
      → (verify c bad fresh s token now).1 ≡ ok v
      → (r : Row) × (by_token c token s.rows ≡ some r) × Admitted r now v.0
  unfolding verify
  verify-Admitted fresh s token now v inv e = elim (Option-cases (by_token c token s.rows)) [
    | inl n ↦ absurd (ground arith)
    | inr (r, f) ↦
        (r, f, judge-Admitted fresh s r now v inv (by_token-In c bad s token r f) (ground arith))
  ]

-- ===== src/Auth/Session/Ops.antt =====
-- services/api/internal/auth/session.go: the operations. Each takes the clock's reading, and gives
-- back the table and what the method returns.
use cofound.Prelude.{
  ℕ, ◌+◌, Bool, false, ◌&&◌, ◌||◌, not, Option, none, some, List, [], ◌∷◌, ltb, leb, ◌==◌, is_none,
  find, update, delete, if◌then◌else◌,
}
use cofound.Errs.Types.{Fault, GoError, leaf}
use cofound.Auth.Token.{Token, is_zero, zero_token}
use cofound.Auth.Session.Store.{
  Session, Sessions, Row, Store, insert_session, select_session, touch_session, find_successor,
  begin_tx, rotate_insert, rotate_mark, commit_tx, Refuses, Outcome, ok, err, no_session, db_error,
  clamp, checks, insert,
}

abbrev pub Verified : Type 0
Verified = Session × Token

-- The random source failing in NewToken.
abbrev pub no_random : GoError
no_random = leaf (Fault.driver "auth: could not read random bytes")

-- `order by issued_at desc limit 1`; of two rows issued at once the database may give either, here
-- the older.
unfoldable pub latest : List Row → Option Row
latest [] = none
latest (r ∷ rs) = elim (latest rs) [
  | none ↦ some r
  | some q ↦ if ltb r.issued_at q.issued_at then some q else some r
]

unfoldable pub succeeds : ℕ → Row → Bool
succeeds i r = elim r.rotated_from [ none ↦ false | some j ↦ i == j && is_none r.revoked_at ]

-- `where …`, all the rows that pass.
unfoldable pub select : (Row → Bool) → List Row → List Row
unfolding delete
select p = delete (λ r. not (p r))

-- successor
unfoldable pub successor : Refuses → Store → ℕ → Outcome Verified
successor bad s i =
    if bad find_successor
    then err (db_error "auth: find successor")
    else elim (latest (select (succeeds i) s.rows)) [
      | none ↦ err no_session
      | some r ↦ ok (r.session, zero_token)
    ]

unfoldable pub mark_rotated : ℕ → ℕ → List Row → List Row
unfolding update
mark_rotated i now = update (λ q. q.id == i) (λ q. record q { rotated_at = some now })

module _ (c : Sessions) where
  unfoldable pub issued_session : ℕ → ℕ → ℕ → Session
  unfolding clamp
  issued_session user now i = record {
    id = i;
    user_id = user;
    issued_at = now;
    last_seen_at = now;
    expires_at = clamp (now + c.idle_timeout) (now + c.absolute_timeout);
    absolute_expires_at = now + c.absolute_timeout;
  }

  unfoldable pub new_row : Session → Token → Option ℕ → Row
  new_row session token from = record {
    session = session;
    token_hash = c.hash token;
    rotated_from = from;
    rotated_at = none;
    revoked_at = none;
    revoked_reason = none;
  }

  -- Issue
  unfoldable pub issue : Refuses → Option Token → Store → ℕ → ℕ → Store × Outcome (Token × Session)
  issue bad none s user now = (s, err no_random)
  issue bad (some token) s user now =
      if bad insert_session
      then (s, err (db_error "auth: issue session"))
      else elim (insert s (λ i. new_row (issued_session user now i) token none)) [
        | none ↦ (s, err (db_error "auth: issue session"))
        | some t ↦ (t, ok (token, issued_session user now s.next_id))
      ]

  -- The session that replaces another: the absolute deadline is kept.
  unfoldable pub rotated_session : Session → ℕ → ℕ → Session
  unfolding clamp
  rotated_session old now i = record {
    id = i;
    user_id = old.user_id;
    issued_at = now;
    last_seen_at = now;
    expires_at = clamp (now + c.idle_timeout) old.absolute_expires_at;
    absolute_expires_at = old.absolute_expires_at;
  }

  -- rotate: the statements of one transaction, of which a failing one leaves nothing behind.
  unfoldable pub rotate : Refuses → Option Token → Store → Session → ℕ → Store × Outcome Verified
  rotate bad none s old now = (s, err no_random)
  rotate bad (some token) s old now =
      if bad begin_tx
      then (s, err (db_error "auth: rotate"))
      else if bad rotate_insert
      then (s, err (db_error "auth: rotate insert"))
      else elim (insert s (λ i. new_row (rotated_session old now i) token (some old.id))) [
        | none ↦ (s, err (db_error "auth: rotate insert"))
        | some t ↦
            if bad rotate_mark
            then (s, err (db_error "auth: rotate mark"))
            else if bad commit_tx
            then (s, err (db_error "auth: rotate commit"))
            else (
              record t { rows = mark_rotated old.id now t.rows },
              ok (rotated_session old now s.next_id, token),
            )
      ]

  unfoldable pub touched : Session → ℕ → Session
  unfolding clamp
  touched r now = record r {
    last_seen_at = now;
    expires_at = clamp (now + c.idle_timeout) r.absolute_expires_at;
  }

  -- The end of Verify: extend the idle deadline.
  unfoldable pub touch : Refuses → Store → Session → ℕ → Store × Outcome Verified
  unfolding touched
  touch bad s r now =
      if bad touch_session || not (checks (touched r now))
      then (s, err (db_error "auth: touch session"))
      else (
        record s {
          rows =
              update (λ q. q.id == r.id)
                (λ q. record q {
                  session = record q.session {
                    last_seen_at = now;
                    expires_at = (touched r now).expires_at;
                  };
                })
                s.rows;
        },
        ok (touched r now, zero_token),
      )

  -- Whether Verify refuses a row before it looks at rotation.
  unfoldable pub is_dead : Row → ℕ → Bool
  is_dead r now =
      not (is_none r.revoked_at) || leb r.absolute_expires_at now || leb r.expires_at now

  -- The switch of Verify, and what follows it.
  unfoldable pub judge : Refuses → Option Token → Store → Row → ℕ → Store × Outcome Verified
  judge bad fresh s r now = if is_dead r now then (s, err no_session) else elim r.rotated_at [
    | some t ↦
        if ltb (t + c.rotate_grace) now then (s, err no_session) else (s, successor bad s r.id)
    | none ↦
        if leb (r.issued_at + c.rotate_after) now
        then rotate bad fresh s r.session now
        else touch bad s r.session now
  ]

  -- `where token_hash = $1`
  unfoldable pub by_token : Token → List Row → Option Row
  unfolding find
  by_token token = find (λ q. q.token_hash == c.hash token)

  -- Verify
  unfoldable pub verify : Refuses → Option Token → Store → Token → ℕ → Store × Outcome Verified
  verify bad fresh s token now =
      if is_zero token
      then (s, err no_session)
      else if bad select_session
      then (s, err (db_error "auth: verify session"))
      else elim (by_token token s.rows) [
        | none ↦ (s, err no_session)
        | some r ↦ judge bad fresh s r now
      ]

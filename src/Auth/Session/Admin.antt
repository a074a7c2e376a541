-- ===== src/Auth/Session/Admin.antt =====
-- services/api/internal/auth/session.go: ending sessions.
use Prim.Native.String.{len, slice}
use cofound.Prelude.{
  ℕ, String, Bool, ◌&&◌, ◌||◌, not, delete, true, Option, none, some, List, ltb, leb, ◌==◌, is_none,
  update, count, find, if◌then◌else◌,
}
use cofound.Errs.Types.{GoError}
use cofound.Auth.Session.Ops.{select}
use cofound.Auth.Session.Store.{
  Row, Store, revoke_one, revoke_all, sweep_sessions, sweep_tokens, Refuses, Outcome, ok, err,
  db_error,
}

-- truncate: at most `n` bytes.
unfoldable pub truncate : String → ℕ → String
truncate s n = if leb (len s) n then s else slice s 0 n

-- `update user_sessions set revoked_at, revoked_reason where … and revoked_at is null`
unfoldable pub revoke_where : (Row → Bool) → ℕ → String → List Row → List Row
unfolding update
revoke_where p now reason =
    update (λ r. p r && is_none r.revoked_at)
      (λ r. record r { revoked_at = some now; revoked_reason = some reason })

-- Revoke
unfoldable pub revoke : Refuses → Store → ℕ → String → ℕ → Store × Outcome (Unit {0})
unfolding revoke_where truncate
revoke bad s i reason now =
    if bad revoke_one
    then (s, err (db_error "auth: revoke"))
    else (record s { rows = revoke_where (λ r. r.id == i) now (truncate reason 200) s.rows }, ok tt)

-- RevokeAllForUser, with the number of sessions that it ended.
unfoldable pub revoke_all_for_user : Refuses → Store → ℕ → String → ℕ → Store × Outcome ℕ
unfolding revoke_where truncate count
revoke_all_for_user bad s user reason now =
    if bad revoke_all then (s, err (db_error "auth: revoke all")) else (
      record s { rows = revoke_where (λ r. r.user_id == user) now (truncate reason 200) s.rows },
      ok (count (λ r. r.user_id == user && is_none r.revoked_at) s.rows),
    )

-- A row of login_tokens, as Sweep reads it.
pub record LoginToken : Type 0 where
  pub expires_at : ℕ
  pub consumed_at : Option ℕ

unfoldable pub is_over : ℕ → Row → Bool
is_over now r = ltb r.absolute_expires_at now

-- `on delete set null` of the column rotated_from, where `gone` are the rows that are deleted.
unfoldable pub unlink : List Row → Row → Row
unfolding find
unlink gone r = elim r.rotated_from [
  | none ↦ r
  | some i ↦ if is_none (find (λ q. q.id == i) gone) then r else record r { rotated_from = none }
]

-- `delete from user_sessions where absolute_expires_at < $1`
unfoldable pub delete_over : ℕ → List Row → List Row
unfolding delete update select
delete_over now rows =
    update (λ r. true) (unlink (select (is_over now) rows)) (delete (is_over now) rows)

unfoldable pub is_spent : ℕ → LoginToken → Bool
is_spent now t = ltb t.expires_at now || not (is_none t.consumed_at)

-- What Sweep returns: how many sessions and login tokens it deleted, and its error.
pub record Swept : Type 0 where
  pub sessions : ℕ
  pub tokens : ℕ
  pub error : Option GoError

-- Sweep
unfoldable pub sweep : Refuses → Store → List LoginToken → ℕ → Store × List LoginToken × Swept
unfolding count delete
sweep bad s ts now =
    if bad sweep_sessions
    then (
      s,
      ts,
      record { sessions = 0; tokens = 0; error = some (db_error "auth: sweep sessions") },
    )
    else let n = count (is_over now) s.rows in
      let swept = record s { rows = delete_over now s.rows } in
      if bad sweep_tokens
      then (
        swept,
        ts,
        record { sessions = n; tokens = 0; error = some (db_error "auth: sweep login tokens") },
      )
      else (
        swept,
        delete (is_spent now) ts,
        record { sessions = n; tokens = count (is_spent now) ts; error = none },
      )

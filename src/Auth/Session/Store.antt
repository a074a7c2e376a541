-- ===== src/Auth/Session/Store.antt =====
-- services/api/internal/auth/session.go over the table user_sessions. A time is in nanoseconds.
-- What Postgres does with each statement is a function on the list of rows; whether it refuses a
-- statement is the argument `bad`. NewToken's random token is an argument, `none` when reading
-- random bytes fails, and `hash` stands for sha256.
use cofound.Prelude.{
  ℕ, ◌+◌, ◌*◌, String, Bool, ◌&&◌, Option, none, some, List, [], ◌∷◌, ◌++◌, ltb, leb, ◌==◌, is_none,
  find, if◌then◌else◌,
}
pub use cofound.Errs.Outcome.{Outcome, ok, err, Outcome-cases, db_error}
use cofound.Errs.Types.{Fault, GoError, leaf, typed}
use cofound.Errs.Build.{unauthenticated, with_cause}
use cofound.Auth.Token.{Token, Hash}

pub record Session : Type 0 where
  pub id : ℕ
  pub user_id : ℕ
  pub issued_at : ℕ
  pub last_seen_at : ℕ
  pub expires_at : ℕ
  pub absolute_expires_at : ℕ

pub record SessionPolicy : Type 0 where
  pub idle_timeout : ℕ
  pub absolute_timeout : ℕ
  pub rotate_after : ℕ
  pub rotate_grace : ℕ

-- Sessions: the policy, and sha256 as HashToken uses it. The pool and the clock are arguments.
pub record Sessions : Type 0 where
  pub policy : SessionPolicy
  pub open policy use *
  pub hash : Token → Hash

abbrev pub second : ℕ
second = 1000000000

-- DefaultSessionPolicy
abbrev pub default_policy : SessionPolicy
default_policy = record {
  idle_timeout = 14 * 24 * 3600 * second;
  absolute_timeout = 90 * 24 * 3600 * second;
  rotate_after = 24 * 3600 * second;
  rotate_grace = 60 * second;
}

-- A row of user_sessions. The ip and the user agent, which nothing reads back, are left out.
pub record Row : Type 0 where
  pub session : Session
  pub open session use *
  pub token_hash : Hash
  pub rotated_from : Option ℕ
  pub rotated_at : Option ℕ
  pub revoked_at : Option ℕ
  pub revoked_reason : Option String

-- The table, and the next id that the database would generate.
pub record Store : Type 0 where
  pub rows : List Row
  pub next_id : ℕ

-- The statements that may fail.
pub data Stmt : Type 0 where
  insert_session select_session touch_session find_successor begin_tx : Stmt
  rotate_insert rotate_mark commit_tx revoke_one revoke_all sweep_sessions sweep_tokens : Stmt

abbrev pub Refuses : Type 0
Refuses = Stmt → Bool

-- ErrNoSession
unfoldable pub no_session : GoError
no_session = typed (with_cause (leaf (Fault.driver "auth: no valid session")) unauthenticated)

-- An idle deadline, never past the absolute one.
unfoldable pub clamp : ℕ → ℕ → ℕ
clamp next absolute = if ltb absolute next then absolute else next

-- The check constraints of user_sessions.
unfoldable pub checks : Session → Bool
checks r = leb r.expires_at r.absolute_expires_at && ltb r.issued_at r.expires_at

-- `insert into user_sessions … returning id`. The id is generated, the hash must be new.
unfoldable pub insert : Store → (ℕ → Row) → Option Store
unfolding checks
insert s row =
    let r = row s.next_id in
    if checks r.session && is_none (find (λ q. q.token_hash == r.token_hash) s.rows)
    then some (record { rows = s.rows ++ r ∷ []; next_id = s.next_id + 1 })
    else none

-- ===== src/Idempotency/Keys.antt =====
-- services/api/internal/idempotency/idempotency.go over the table idempotency_keys. Row-level
-- security shows a request the rows of its own org, so every statement also tests the org. A time is
-- in nanoseconds; `bad` says which statements the database refuses.
use cofound.Prelude.{
  ℕ, ◌+◌, ◌*◌, String, Bool, ◌&&◌, ◌||◌, not, Option, none, some, List, [], ◌∷◌, ◌++◌, ltb, ◌==◌,
  ◌=s◌, is_none, find, update, delete, count, if◌then◌else◌,
}
pub use cofound.Errs.Outcome.{db_error}
use cofound.Errs.Types.{GoError, typed, text}
use cofound.Errs.Build.{invalid, conflict, with_fix, with_detail, with_retry_after}

-- A response as it is kept: `stored`.
pub record Stored : Type 0 where
  pub status : ℕ
  pub body : List ℕ
  pub headers : List (String × String)

-- A row. The response is there exactly when `completed_at` is: the table's check constraint.
pub record KeyRow : Type 0 where
  pub org_id : ℕ
  pub key : String
  pub method : String
  pub path : String
  pub request_hash : ℕ
  pub expires_at : ℕ
  pub completed : Option Stored

abbrev pub Table : Type 0
Table = List KeyRow

pub data Stmt : Type 0 where
  begin_tx claim_key reclaim_key commit_tx complete_key release_key sweep_keys : Stmt

abbrev pub Refuses : Type 0
Refuses = Stmt → Bool

abbrev pub max_key_length : ℕ
max_key_length = 255

-- DefaultTTL: 24 hours.
abbrev pub default_ttl : ℕ
default_ttl = 24 * 3600 * 1000000000

-- Middleware: the time to live, which is positive, the bound on a body, and sha256.
pub record Middleware : Type 0 where
  pub ttl : ℕ
  pub max_body : ℕ
  pub digest : List ℕ → ℕ

-- Middleware.ttl, for the configured value.
unfoldable pub effective_ttl : Middleware → ℕ
effective_ttl m = if ltb 0 m.ttl then m.ttl else default_ttl

unfoldable pub is_key : ℕ → String → KeyRow → Bool
is_key org key r = r.org_id == org && r.key =s key

-- The request that a key is claimed for.
pub record Call : Type 0 where
  pub org : ℕ
  pub key : String
  pub method : String
  pub path : String
  pub hash : ℕ

-- What a claim tells Wrap: replay a response, or run the handler.
pub data Claim : Type 0 where
  run : Claim
  replay : Stored → Claim
  refuse : GoError → Claim

unfoldable pub claimed_row : Middleware → Call → ℕ → KeyRow
claimed_row m c now = record {
  org_id = c.org;
  key = c.key;
  method = c.method;
  path = c.path;
  request_hash = c.hash;
  expires_at = now + effective_ttl m;
  completed = none;
}

-- `insert … on conflict (org_id, key) do nothing`
unfoldable pub insert_key : Middleware → Call → ℕ → Table → Table
insert_key m c now t =
    if is_none (find (is_key c.org c.key) t) then t ++ claimed_row m c now ∷ [] else t

-- The row that the statement returns: the one inserted, or the one that was there.
unfoldable pub row_of : Middleware → Call → ℕ → Table → KeyRow
row_of m c now t = elim (find (is_key c.org c.key) t) [ none ↦ claimed_row m c now | some r ↦ r ]

unfoldable pub same_call : Call → KeyRow → Bool
same_call c r = r.request_hash == c.hash && r.method =s c.method && r.path =s c.path

unfoldable pub reused : GoError
reused = typed (
    with_detail "field" (text "Idempotency-Key") (
      with_fix "Use a new key for a new request."
        (invalid "That Idempotency-Key was already used for a different request.")))

unfoldable pub in_flight : GoError
in_flight = typed (
    with_retry_after 1000000000 (
      with_fix "Wait for it to finish, then retry."
        (conflict "request_in_flight" "A request with that Idempotency-Key is still running.")))

-- `update idempotency_keys set request_hash, method, path, expires_at, … = null where key = $1`
unfoldable pub reclaim : Middleware → Call → ℕ → Table → Table
reclaim m c now = update (is_key c.org c.key) (λ r. claimed_row m c now)

-- The body of the transaction after its first statement, with the table as that left it.
unfoldable pub decide : Middleware → Refuses → Call → ℕ → Table → KeyRow → Table × Claim
decide m bad c now t r =
    if is_none r.completed && same_call c r
    then if ltb r.expires_at now
      then (if bad reclaim_key
          then (t, refuse (db_error "idempotency: reclaim"))
          else (reclaim m c now t, run))
      else (t, run)
    else if not (same_call c r)
    then (t, refuse reused)
    else elim r.completed [ some s ↦ (t, replay s) | none ↦ (t, refuse in_flight) ]

-- ScopeAs: an error rolls the transaction back.
unfoldable pub settle : Refuses → Table → Table × Claim → Table × Claim
settle bad before (t, refuse e) = (before, refuse e)
settle bad before (t, run) =
    if bad commit_tx then (before, refuse (db_error "db: commit")) else (t, run)
settle bad before (t, replay s) =
    if bad commit_tx then (before, refuse (db_error "db: commit")) else (t, replay s)

-- claim
unfoldable pub claim : Middleware → Refuses → Call → ℕ → Table → Table × Claim
claim m bad c now t =
    if bad begin_tx
    then (t, refuse (db_error "db: begin"))
    else if bad claim_key
    then (t, refuse (db_error "idempotency: claim"))
    else settle bad t (decide m bad c now (insert_key m c now t) (row_of m c now t))

-- An answer without a body has a nil buffer, which the driver sends as NULL.
unfoldable pub has_body : Stored → Bool
has_body s = elim s.body [ [] ↦ Bool.false | c ∷ cs ↦ Bool.true ]

-- complete: `update … set status, response_body, response_headers, completed_at`; its error is dropped.
-- The check constraint idempotency_complete_together refuses a completed row without a body.
unfoldable pub complete : Refuses → Call → Stored → Table → Table
unfolding has_body
complete bad c s t =
    if bad complete_key || not (has_body s)
    then t
    else update (is_key c.org c.key) (λ r. record r { completed = some s }) t

-- release
unfoldable pub release : Refuses → Call → Table → Table
release bad c t = if bad release_key then t else delete (is_key c.org c.key) t

-- The policy of idempotency_keys: a row of the org in the settings of the connection. Those of an
-- unscoped connection have none.
unfoldable pub is_visible : Option ℕ → KeyRow → Bool
is_visible org r = elim org [ none ↦ Bool.false | some i ↦ r.org_id == i ]

-- Sweep, with the number of keys deleted, on a connection whose settings name an org, or none.
unfoldable pub sweep_seen : Option ℕ → ℕ → Table → Table × ℕ
unfolding is_visible
sweep_seen org now t = (
  delete (λ r. is_visible org r && ltb r.expires_at now) t,
  count (λ r. is_visible org r && ltb r.expires_at now) t,
)

-- Sweep, which takes a connection from the pool as it is.
unfoldable pub sweep : Refuses → ℕ → Table → Table × Option ℕ
unfolding sweep_seen
sweep bad now t =
    let (left, n) = sweep_seen none now t in if bad sweep_keys then (t, none) else (left, some n)

-- ===== src/Idempotency/InFlight.antt =====
-- Claims that meet a row already there: in flight, of another request, or released.
use cofound.Prelude.{
  ℕ, ◌≤◌, String, ◌≡◌, ◌≢◌, refl, Bool, true, false, none, some, arith, find, is_none, inl, inr,
  Option-cases, ltb, ◌&&◌, not, Bool-cases, if◌then◌else◌,
}
use cofound.Errs.Code.{Code, is_valid}
use cofound.Errs.Build.{code_of, new, with_detail, with_fix, with_message, invalid}
use cofound.Idempotency.Keys.{
  KeyRow, Table, Refuses, Middleware, Call, Claim, run, replay, refuse, claim, settle, decide,
  insert_key, row_of, is_key, same_call, reused, in_flight, db_error, begin_tx, claim_key,
  commit_tx, reclaim_key,
}

-- The code of the error that a claim ends in.
abbrev pub code_of_claim : Claim → Code
code_of_claim run = ""
code_of_claim (replay s) = ""
code_of_claim (refuse e) = code_of e

code-reused : code_of reused ≡ "invalid"
unfolding code_of reused new with_detail with_fix invalid with_message is_valid
code-reused = refl

code-db_error : (s : String) → code_of (db_error s) ≡ "internal"
unfolding code_of
code-db_error s = refl

abbrev conflict_code : Code
conflict_code = "request_in_flight"

not_codes : ("" ≢ conflict_code) × ("invalid" ≢ conflict_code) × ("internal" ≢ conflict_code)
not_codes = (λ e. cc, λ e. cc, λ e. cc)

abbrev NotConflict : Table × Claim → Type 0
NotConflict d = code_of_claim d.1 ≢ conflict_code

if-NotConflict :
    (b : Bool) (x y : Table × Claim)
    → NotConflict x
    → NotConflict y
    → NotConflict (if b then x else y)
if-NotConflict true x y h k = h
if-NotConflict false x y h k = k

reused-NotConflict : (t : Table) → NotConflict (t, refuse reused)
reused-NotConflict t = rw code-reused not_codes.1

db_error-NotConflict : (t : Table) (s : String) → NotConflict (t, refuse (db_error s))
db_error-NotConflict t s = rw (code-db_error s) not_codes.2

module _ (m : Middleware) (bad : Refuses) (c : Call) (now : ℕ) (t : Table) where
  -- While a request is in flight, the same request with the same key is told to run as well: the
  -- claim of a row that is not completed and not expired succeeds and changes nothing.
  pub claim-in_flight :
      (r : KeyRow)
      → bad begin_tx ≡ false
      → bad claim_key ≡ false
      → bad commit_tx ≡ false
      → find (is_key c.org c.key) t ≡ some r
      → r.completed ≡ none
      → same_call c r ≡ true
      → now ≤ r.expires_at
      → claim m bad c now t ≡ (t, run)
  unfolding claim settle decide insert_key row_of
  claim-in_flight r b k d e f g h = ground arith

  -- A key that another request has used is refused with the error that says so, and nothing
  -- changes, whether that request is in flight or completed.
  pub claim-reused :
      (r : KeyRow)
      → bad begin_tx ≡ false
      → bad claim_key ≡ false
      → find (is_key c.org c.key) t ≡ some r
      → same_call c r ≡ false
      → claim m bad c now t ≡ (t, refuse reused)
  unfolding claim settle decide insert_key row_of
  claim-reused r b k e g = ground arith

  finish-NotConflict :
      (u : Table) (r : KeyRow)
      → (is_none r.completed && same_call c r) ≡ false
      → NotConflict (
          if not (same_call c r)
          then (u, refuse reused)
          else elim r.completed [ some s ↦ (u, replay s) | none ↦ (u, refuse in_flight) ])
  finish-NotConflict u r e = elim (Bool-cases (same_call c r)) [
    | inl same ↦ elim (Option-cases r.completed) [
      | inl n ↦ absurd (ground arith)
      | inr (s, f) ↦ rw (same, f) not_codes.0
    ]
    | inr differs ↦ rw differs (reused-NotConflict u)
  ]

  decide-NotConflict : (u : Table) (r : KeyRow) → NotConflict (decide m bad c now u r)
  unfolding decide
  decide-NotConflict u r = elim (Bool-cases (is_none r.completed && same_call c r)) [
    | inl open_claim ↦ rw open_claim (
        if-NotConflict (ltb r.expires_at now) _ _
          (if-NotConflict (bad reclaim_key) _ _ (db_error-NotConflict u _) not_codes.0) not_codes.0)
    | inr other ↦ rw other (finish-NotConflict u r other)
  ]

  settle-NotConflict : (d : Table × Claim) → NotConflict d → NotConflict (settle bad t d)
  unfolding settle
  settle-NotConflict (u, run) h = if-NotConflict (bad commit_tx) _ _ (db_error-NotConflict t _) h
  settle-NotConflict (u, replay s) h =
      if-NotConflict (bad commit_tx) _ _ (db_error-NotConflict t _) h
  settle-NotConflict (u, refuse e) h = h

  -- No claim ends in the conflict `request_in_flight`, whatever the table holds and whichever
  -- statement fails.
  pub claim-NotConflict : code_of_claim (claim m bad c now t).1 ≢ "request_in_flight"
  unfolding claim
  claim-NotConflict = if-NotConflict (bad begin_tx) _ _ (db_error-NotConflict t _) (
      if-NotConflict (bad claim_key) _ _ (db_error-NotConflict t _)
        (settle-NotConflict _ (decide-NotConflict _ _)))

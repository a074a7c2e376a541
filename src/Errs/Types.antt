-- ===== src/Errs/Types.antt =====
-- packages/chassis/errs/error.go: the chassis error, and Go errors as the source builds them.
use cofound.Prelude.{ℕ, String, Bool, Option, none, some, List}
use cofound.Errs.Code.{Code}

-- The values that the source puts into `Details`.
pub data Detail : Type 0 where
  text : String → Detail
  texts : List String → Detail

-- The fields of Error that a client may see. A duration is in nanoseconds.
pub record Envelope : Type 0 where
  pub code : Code
  pub status : ℕ
  pub message : String
  pub fix : String
  pub retriable : Bool
  pub retry_after : ℕ
  pub details : List (String × Detail)

-- Errors of Go's library and of the database driver that the source tells apart.
pub data Fault : Type 0 where
  no_rows unique_violation canceled abort_handler broken_pipe conn_reset : Fault
  driver : String → Fault

-- A Go error: a leaf, `fmt.Errorf("…: %w", err)`, or an *errs.Error, whose cause may be absent.
-- The stack captured for the log is left out.
mutual
  pub data GoError : Type 0 where
    leaf : Fault → GoError
    wrapped : String → GoError → GoError
    typed : ApiError → GoError

  pub data ApiError : Type 0 where
    bare : Envelope → ApiError
    caused : Envelope → GoError → ApiError

abbrev pub envelope : ApiError → Envelope
envelope (bare e) = e
envelope (caused e c) = e

-- errors.As for *errs.Error: the first one in the chain.
unfoldable pub as_error : GoError → Option ApiError
as_error (leaf f) = none
as_error (wrapped s e) = as_error e
as_error (typed a) = some a

-- The fault at the end of the chain, causes included: what errors.Is finds.
unfoldable mutual
  pub root : GoError → Option Fault
  root (leaf f) = some f
  root (wrapped s e) = root e
  root (typed a) = root_api a

  pub root_api : ApiError → Option Fault
  root_api (bare e) = none
  root_api (caused e c) = root c

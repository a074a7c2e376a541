-- ===== src/Errs/Wire.antt =====
-- packages/chassis/errs/wire.go and httpx/errorwriter.go: from an error to a response.
use cofound.Prelude.{ℕ, ◌/◌, String, Bool, ◌||◌, Option, none, some, List, ltb, ◌=s◌, if◌then◌else◌}
use cofound.Errs.Code.{Code, is_valid}
use cofound.Errs.Types.{Detail, GoError, ApiError, Envelope, envelope, as_error}
use cofound.Errs.Build.{is_client_closed, client_closed, internal}

-- common.Error. An absent pointer is `none`; an absent map is empty.
pub record WireError : Type 0 where
  pub code : Code
  pub message : String
  pub retriable : Bool
  pub fix : Option String
  pub request_id : Option String
  pub details : List (String × Detail)

abbrev pub fallback_message : String
fallback_message = "Halyard could not complete this request."

abbrev pub non_empty : String → Option String
non_empty s = if s =s "" then none else some s

-- Error.Wire
unfoldable pub wire : ApiError → String → WireError
wire a rid = record {
  code = if is_valid e.code then e.code else "internal";
  message = if e.message =s "" then fallback_message else e.message;
  retriable = e.retriable;
  fix = non_empty e.fix;
  request_id = non_empty rid;
  details = e.details;
}
  where
    e : Envelope
    e = envelope a

-- agentevents.ErrorEvent
pub record ErrorEvent : Type 0 where
  pub turn : ℕ
  pub code : Code
  pub message : String
  pub retriable : Bool

-- Error.Event
unfoldable pub event : ApiError → ℕ → ErrorEvent
event a n = record {
  turn = n;
  code = if is_valid e.code then e.code else "internal";
  message = if e.message =s "" then fallback_message else e.message;
  retriable = e.retriable;
}
  where
    e : Envelope
    e = envelope a

-- From, at an error that is not nil.
unfoldable pub from : GoError → ApiError
unfolding as_error is_client_closed client_closed internal
from err = elim (as_error err) [
  | some a ↦ a
  | none ↦ if is_client_closed err then client_closed err else internal err
]

-- What is written to the client. `retry_after` is the header, in whole seconds.
pub record Response : Type 0 where
  pub status : ℕ
  pub retry_after : Option ℕ
  pub body : WireError

abbrev pub second : ℕ
second = 1000000000

-- The rendering of ErrorWriter.Fail, after `From`.
unfoldable pub rendered : ApiError → String → Response
unfolding wire
rendered a rid = record {
  status = e.status;
  retry_after = if ltb 0 e.retry_after then some (e.retry_after / second) else none;
  body = wire a rid;
}
  where
    e : Envelope
    e = envelope a

-- ErrorWriter.Fail, where `started` says that a status has gone out. `none`: nothing is written.
-- The log and the span are left out, and so is a failure of json.Marshal, which the details of the
-- source cannot cause.
unfoldable pub fail : Bool → GoError → String → Option Response
unfolding from rendered
fail started err rid =
    let a = from err in
    if (envelope a).code =s "client_closed" || started then none else some (rendered a rid)

-- ===== src/Errs/Build.antt =====
-- packages/chassis/errs/error.go and constructors.go: the builders, and the named constructors.
use cofound.Prelude.{
  ℕ, String, Bool, true, false, not, ◌&&◌, ◌||◌, none, some, List, [], ◌∷◌, ◌==◌, ◌=s◌, lookup,
  if◌then◌else◌,
}
use Prim.Native.String.{◌++◌}
use cofound.Errs.Code.{Code, is_valid}
use cofound.Errs.Catalog.{Entry, chassis}
use cofound.Errs.Idents.{sanitize_ident, title_first}
use cofound.Errs.Types.{
  Detail, text, texts, Envelope, Fault, canceled, abort_handler, broken_pipe, conn_reset, GoError,
  leaf, ApiError, bare, caused, envelope, as_error, root,
}

-- The builders copy their receiver; `over` is what they share.
unfoldable pub over : (Envelope → Envelope) → ApiError → ApiError
over f (bare e) = bare (f e)
over f (caused e c) = caused (f e) c

-- WithCause
unfoldable pub with_cause : GoError → ApiError → ApiError
with_cause c a = caused (envelope a) c

-- WithFix
unfoldable pub with_fix : String → ApiError → ApiError
unfolding over
with_fix s = over (λ e. record e { fix = s })

-- WithMessage
unfoldable pub with_message : String → ApiError → ApiError
unfolding over
with_message s = over (λ e. record e { message = s })

-- `m[k] = v`
unfoldable pub put : String → Detail → List (String × Detail) → List (String × Detail)
put k v [] = (k, v) ∷ []
put k v ((j, w) ∷ m) = if j =s k then (k, v) ∷ m else (j, w) ∷ put k v m

-- WithDetail
unfoldable pub with_detail : String → Detail → ApiError → ApiError
unfolding over put
with_detail k v = over (λ e. record e { details = put k v e.details })

-- WithRetryAfter
unfoldable pub with_retry_after : ℕ → ApiError → ApiError
unfolding over
with_retry_after d = over (λ e. record e { retry_after = d })

-- WithStatus
unfoldable pub with_status : ℕ → ApiError → ApiError
unfolding over
with_status s = over (λ e. record e { status = s })

unfoldable pub with_code : Code → ApiError → ApiError
unfolding over
with_code c = over (λ e. record e { code = c })

unfoldable pub prefilled : Entry → ApiError
prefilled e = bare (record {
  code = e.code;
  status = e.status;
  message = e.message;
  fix = e.fix;
  retriable = e.retriable;
  retry_after = 0;
  details = [];
})

-- The entry of the catalogue for `internal`, which Internal is built from.
unfoldable pub internal_base : ApiError
unfolding prefilled
internal_base = prefilled (record {
  code = "internal";
  status = 500;
  retriable = false;
  message = "Halyard could not complete this request.";
  fix = "Contact support with the request id.";
})

-- Internal
unfoldable pub internal : GoError → ApiError
unfolding with_cause internal_base
internal c = with_cause c internal_base

-- Catalog.New over the transport catalogue. An unknown code is an internal fault.
unfoldable pub new : Code → ApiError
unfolding lookup chassis internal prefilled
new c = elim (lookup c chassis) [
  | none ↦ internal (leaf (Fault.driver ("errs: code " ++ c ++ " is not in the catalogue")))
  | some e ↦ prefilled e
]

-- Invalid
unfoldable pub invalid : String → ApiError
unfolding new with_message
invalid msg = with_message msg (new "invalid")

-- InvalidField
unfoldable pub invalid_field : String → String → ApiError
unfolding new with_message with_fix with_detail
invalid_field field want = with_detail "field" (text field) (
    with_fix "Correct it and try again."
      (with_message (field ++ " " ++ want ++ ".") (new "invalid")))

-- InvalidBody
unfoldable pub invalid_body : GoError → ApiError
unfolding new with_message with_fix with_cause
invalid_body c = with_cause c (
    with_fix "Send a valid JSON object."
      (with_message "That request body could not be read as JSON." (new "invalid")))

-- Unauthenticated
unfoldable pub unauthenticated : ApiError
unfolding new
unauthenticated = new "unauthenticated"

-- Forbidden
unfoldable pub forbidden : String → ApiError
unfolding new with_message
forbidden action =
    if action =s ""
    then new "forbidden"
    else with_message ("Your role does not allow you to " ++ action ++ ".") (new "forbidden")

-- NotFound. The quotes of `%q` go round a clean identifier, which has nothing to escape.
unfoldable pub not_found : String → String → ApiError
unfolding new with_message with_detail sanitize_ident title_first
not_found kind ident =
    let e =
      if kind =s ""
      then new "not_found"
      else with_detail "resource" (text kind) (new "not_found") in
    let msg =
      if kind =s "" then "That does not exist." else "That " ++ kind ++ " does not exist." in
    elim (sanitize_ident ident) [
      | none ↦ with_message msg e
      | some clean ↦ with_message (title_first kind ++ " \"" ++ clean ++ "\" does not exist.") e
    ]

-- Conflict
unfoldable pub conflict : Code → String → ApiError
unfolding new with_message with_code is_valid
conflict c msg =
    let e = if not (c =s "") && is_valid c then with_code c (new "conflict") else new "conflict" in
    if msg =s "" then e else with_message msg e

-- RateLimited
unfoldable pub rate_limited : ℕ → ApiError
unfolding new with_retry_after
rate_limited d = with_retry_after d (new "rate_limited")

-- NotReady
unfoldable pub not_ready : List String → ApiError
unfolding new with_detail
not_ready [] = new "not_ready"
not_ready (f ∷ fs) = with_detail "failing" (texts (f ∷ fs)) (new "not_ready")

-- ClientClosed
unfoldable pub client_closed : GoError → ApiError
client_closed c =
    caused
      (record {
        code = "client_closed";
        status = 499;
        message = "The client closed the connection.";
        fix = "";
        retriable = false;
        retry_after = 0;
        details = [];
      })
      c

abbrev is_disconnect : Fault → Bool
is_disconnect canceled = true
is_disconnect abort_handler = true
is_disconnect broken_pipe = true
is_disconnect conn_reset = true
is_disconnect _ = false

-- IsClientClosed
unfoldable pub is_client_closed : GoError → Bool
unfolding root as_error
is_client_closed e =
    (elim (root e) [ none ↦ false | some f ↦ is_disconnect f ])
    || (elim (as_error e) [ none ↦ false | some a ↦ (envelope a).code =s "client_closed" ])

-- StatusOf
unfoldable pub status_of : GoError → ℕ
unfolding as_error
status_of e = elim (as_error e) [
  | none ↦ 500
  | some a ↦ if (envelope a).status == 0 then 500 else (envelope a).status
]

-- CodeOf
unfoldable pub code_of : GoError → Code
unfolding as_error
code_of e = elim (as_error e) [
  | none ↦ "internal"
  | some a ↦ if (envelope a).code =s "" then "internal" else (envelope a).code
]

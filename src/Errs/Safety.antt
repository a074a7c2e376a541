-- ===== src/Errs/Safety.antt =====
-- What a client can rely on in an error response, and what can never reach it.
use cofound.Prelude.{
  ℕ, String, ◌≡◌, refl, ◌≢◌, Bool, true, false, none, arith, eq_iff, ◌=s◌, if◌then◌else◌,
  Bool-cases, inl, inr,
}
use cofound.Errs.Code.{is_valid}
use cofound.Errs.Types.{GoError, ApiError, envelope, as_error}
use cofound.Errs.Build.{is_client_closed, internal, internal_base, new, with_cause, prefilled}
use cofound.Errs.Wire.{fallback_message, wire, event, from, fail, rendered}

internal_valid : is_valid "internal" ≡ true
unfolding is_valid
internal_valid = refl

fallback_not_empty : fallback_message ≢ ""
fallback_not_empty p = cc

or_fallback : (m : String) → (if m =s "" then fallback_message else m) ≢ ""
or_fallback m = elim (Bool-cases (m =s "")) [
  | inl e ↦ rw e fallback_not_empty
  | inr n ↦ rw n (λ p. cc ((eq_iff m "").1 p))
]

or_internal : (c : String) → is_valid (if is_valid c then c else "internal") ≡ true
or_internal c = ground (arith, internal_valid)

-- Whatever the error, the body and the stream event have a code that every client's decoder
-- accepts, and a message that is not empty.
pub wire-decodes :
    (a : ApiError) (rid : String) (turn : ℕ)
    → (is_valid (wire a rid).code ≡ true)
      × ((wire a rid).message ≢ "")
      × (is_valid (event a turn).code ≡ true)
      × ((event a turn).message ≢ "")
unfolding wire event
wire-decodes a rid turn = (
  or_internal (envelope a).code,
  or_fallback (envelope a).message,
  or_internal (envelope a).code,
  or_fallback (envelope a).message,
)

from-untyped : (e : GoError) → as_error e ≡ none → is_client_closed e ≡ false → from e ≡ internal e
unfolding from
from-untyped e h k = ground arith

-- Two errors that are not typed errors and not disconnects get one and the same answer: nothing
-- of the error itself reaches the client.
pub fail-untyped :
    (started : Bool) (e f : GoError) (rid : String)
    → as_error e ≡ none
    → is_client_closed e ≡ false
    → as_error f ≡ none
    → is_client_closed f ≡ false
    → fail started e rid ≡ fail started f rid
unfolding fail internal with_cause wire rendered
fail-untyped started e f rid he ke hf kf = rw (from-untyped e he ke, from-untyped f hf kf)

-- The cause that is attached to an error changes nothing of its response.
fail-with_cause :
    (a : ApiError) (c : GoError) (rid : String) → rendered (with_cause c a) rid ≡ rendered a rid
unfolding rendered with_cause wire
fail-with_cause a c rid = refl

internal_base-chassis : new "internal" ≡ internal_base
unfolding new internal_base prefilled is_valid
internal_base-chassis = refl

-- ===== src/Errs/Catalog.antt =====
-- packages/chassis/errs/catalog.go: a catalogue of error entries, validated when it is built.
pub mod Lookup
use cofound.Prelude.{
  ℕ, String, Bool, true, false, ◌||◌, Option, none, some, List, [], ◌∷◌, ltb, ◌=s◌, lookup, is_none,
  if◌then◌else◌,
}
use cofound.Errs.Code.{Code, is_valid}

pub record Entry : Type 0 where
  pub code : Code
  pub status : ℕ
  pub retriable : Bool
  pub message : String
  pub fix : String

-- The map from codes to entries.
abbrev pub Catalog : Type 0
Catalog = List (String × Entry)

-- Why an entry is refused.
pub data Refusal : Type 0 where
  bad_code no_message bad_status duplicate : Code → Refusal

pub data Built : Type 0 where
  built : Catalog → Built
  refused : Refusal → Built

-- The checks on one entry, in their order.
unfoldable pub refusal : Catalog → Entry → Option Refusal
refusal m e =
    if is_valid e.code
    then if e.message =s ""
      then some (no_message e.code)
      else if ltb e.status 400 || ltb 599 e.status
      then some (bad_status e.code)
      else if is_none (lookup e.code m)
      then none
      else some (duplicate e.code)
    else some (bad_code e.code)

-- The loop of NewCatalog over the entries that are left.
unfoldable pub build : Catalog → List Entry → Built
unfolding refusal
build m [] = built m
build m (e ∷ es) =
    let rest = build ((e.code, e) ∷ m) es in elim (refusal m e) [ none ↦ rest | some r ↦ refused r ]

-- NewCatalog
unfoldable pub new_catalog : List Entry → Built
unfolding build
new_catalog = build []

abbrev row : Code → ℕ → Bool → String → String → Entry
row c s r m f = record { code = c; status = s; retriable = r; message = m; fix = f }

unfoldable pub chassis_entries : List Entry
chassis_entries =
    row "invalid" 422 false "That request is not valid." "Check the fields and try again."
    ∷ row "unauthenticated" 401 false "You are not signed in." "Sign in and try again."
    ∷ row "payment_required" 402 false "This organisation is out of credits."
        "Top up credits to continue."
    ∷ row "forbidden" 403 false "Your role does not allow this."
        "Ask an owner or admin to do it, or to change your role."
    ∷ row "not_found" 404 false "That does not exist." ""
    ∷ row "method_not_allowed" 405 false "That method is not allowed here." ""
    ∷ row "conflict" 409 false "That conflicts with the current state." "Reload and try again."
    ∷ row "payload_too_large" 413 false "That request body is too large." "Send less data."
    ∷ row "unsupported_media_type" 415 false "That content type is not supported."
        "Send application/json."
    ∷ row "rate_limited" 429 true "Too many requests." "Wait a moment and try again."
    ∷ row "not_ready" 503 true "This service is still starting up." "Try again in a few seconds."
    ∷ row "internal" 500 false "Halyard could not complete this request."
        "Contact support with the request id."
    ∷ row "unavailable" 503 true "A service Halyard depends on is unavailable." "Try again shortly."
    ∷ row "timeout" 504 true "That took too long." "Try again."
    ∷ []

abbrev or_empty : Built → Catalog
or_empty (built c) = c
or_empty (refused r) = []

-- MustCatalog at initialisation; a refusal would be a panic, and there is none.
unfoldable pub chassis : Catalog
unfolding new_catalog chassis_entries
chassis = or_empty (new_catalog chassis_entries)

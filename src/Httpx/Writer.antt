-- ===== src/Httpx/Writer.antt =====
-- packages/chassis/httpx/writer.go, the helpers of handler.go, and ErrorWriter.Fail on a response.
-- net/http sends the headers that are set when a status goes out, and none that are set later.
use cofound.Prelude.{
  ℕ, String, Bool, true, false, Option, none, some, List, [], and_last, if◌then◌else◌,
}
use cofound.Errs.Types.{GoError}
use cofound.Errs.Outcome.{Outcome, ok, err}
use cofound.Errs.Wire.{Response, fail}

-- Writer, with the net/http response that it wraps: headers of the type `H` and a body of the
-- pieces `B`. The count of bytes is left out.
pub record Writer (H B : Type 0) : Type 0 where
  pub header : List H
  pub sent : Option (ℕ × List H)
  pub body : List B
  pub status : ℕ
  pub wrote : Bool

-- net/http's WriteHeader: the first status counts.
unfoldable pub freeze : {H : Type 0} → ℕ → List H → Option (ℕ × List H) → Option (ℕ × List H)
freeze status header none = some (status, header)
freeze status header (some s) = some s

module _ {H B : Type 0} where
  -- Wrap, of a response that nothing was done to.
  unfoldable pub wrap : Writer H B
  wrap = record { header = []; sent = none; body = []; status = 200; wrote = false }

  -- Header().Add
  unfoldable pub add_header : H → Writer H B → Writer H B
  add_header h w = record w { header = and_last w.header h }

  -- WriteHeader
  unfoldable pub write_header : ℕ → Writer H B → Writer H B
  unfolding freeze
  write_header status w =
      if w.wrote
      then w
      else record w { status = status; wrote = true; sent = freeze status w.header w.sent }

  -- Write
  unfoldable pub write : B → Writer H B → Writer H B
  unfolding write_header
  write b w =
      let v = if w.wrote then w else write_header 200 w in record v { body = and_last v.body b }

  -- NoContent
  unfoldable pub no_content : Writer H B → Writer H B
  unfolding write_header
  no_content w = write_header 204 w

  -- JSON, of a value that is marshalled.
  unfoldable pub json : ℕ → B → Writer H B → Writer H B
  unfolding write write_header
  json status b w = write b (write_header status w)

  -- ErrorWriter.Fail
  unfoldable pub fail_with : (Response → B) → String → GoError → Writer H B → Writer H B
  unfolding write write_header
  fail_with problem rid e w = elim (fail w.wrote e rid) [
    | none ↦ w
    | some r ↦ write (problem r) (write_header r.status w)
  ]

  -- ErrorWriter.H, after the handler has returned.
  unfoldable pub handled {ℓ} :
      {W : Type ℓ} → (Response → B) → String → W × Writer H B × Outcome (Unit {0}) → W × Writer H B
  handled problem rid (s, w, ok u) = (s, w)
  handled problem rid (s, w, err e) = (s, fail_with problem rid e w)

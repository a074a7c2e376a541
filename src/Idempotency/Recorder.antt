-- ===== src/Idempotency/Recorder.antt =====
-- services/api/internal/idempotency/idempotency.go: the recorder that captures a response while it
-- is sent. A body is a list of bytes.
use cofound.Prelude.{
  ℕ, ◌+◌, ◌≤◌, ◌≡◌, Bool, true, false, List, [], ◌∷◌, ◌++◌, arith, leb, length, length-append, ◌∙◌,
  if◌then◌else◌,
}
use mathlib.Core.List.{append_assoc, append-nil}

-- `sent` is what the wrapped writer has been given.
pub record Recorder : Type 0 where
  pub status : ℕ
  pub body : List ℕ
  pub limit : ℕ
  pub written : ℕ
  pub wrote : Bool
  pub sent : List ℕ

-- As Wrap builds it.
unfoldable pub recorder : ℕ → Recorder
recorder limit = record {
  status = 200;
  body = [];
  limit = limit;
  written = 0;
  wrote = false;
  sent = [];
}

-- WriteHeader: the first status counts.
unfoldable pub write_header : ℕ → Recorder → Recorder
write_header status r = if r.wrote then r else record r { wrote = true; status = status }

-- The capture of Write, once the header is out.
unfoldable pub capture : List ℕ → Recorder → Recorder
capture p r =
    if leb (r.written + length p) r.limit
    then record r { body = r.body ++ p; written = r.written + length p; sent = r.sent ++ p }
    else record r { body = []; written = r.limit + 1; sent = r.sent ++ p }

-- Write
unfoldable pub write : List ℕ → Recorder → Recorder
unfolding write_header capture
write p r = capture p (write_header 200 r)

unfoldable pub write_all : List (List ℕ) → Recorder → Recorder
unfolding write
write_all [] r = r
write_all (p ∷ ps) r = write_all ps (write p r)

unfoldable pub concat : List (List ℕ) → List ℕ
concat [] = []
concat (p ∷ ps) = p ++ concat ps

write_all-sent : (ps : List (List ℕ)) (r : Recorder) → (write_all ps r).sent ≡ r.sent ++ concat ps
unfolding write_all write write_header capture concat
write_all-sent [] r = ground (arith, append-nil r.sent)
write_all-sent (p ∷ ps) r =
    write_all-sent ps (write p r) ∙ ground (arith, append_assoc r.sent p (concat ps))

-- A capture that was given up stays empty.
write_all-spoilt :
    (ps : List (List ℕ)) (r : Recorder)
    → r.written ≡ r.limit + 1
    → r.body ≡ []
    → (write_all ps r).body ≡ []
unfolding write_all write write_header capture
write_all-spoilt [] r w b = b
write_all-spoilt (p ∷ ps) r w b = write_all-spoilt ps (write p r) (ground arith) (ground arith)

write_all-kept :
    (ps : List (List ℕ)) (r : Recorder)
    → r.written ≤ r.limit
    → (write_all ps r).body
      ≡ (if leb (r.written + length (concat ps)) r.limit then r.body ++ concat ps else [])
unfolding write_all write write_header capture concat
write_all-kept [] r w = ground (arith, append-nil r.body)
write_all-kept (p ∷ ps) r w = ground (
  arith,
  write_all-kept ps (write p r),
  write_all-spoilt ps (write p r),
  length-append p (concat ps),
  append_assoc r.body p (concat ps),
)

-- Whatever pieces a handler writes, all of them go to the client; the capture is the whole body if
-- that is within the limit, and is empty otherwise.
pub recorder-body :
    (limit : ℕ) (ps : List (List ℕ))
    → ((write_all ps (recorder limit)).sent ≡ concat ps)
      × ((write_all ps (recorder limit)).body
          ≡ (if leb (length (concat ps)) limit then concat ps else []))
unfolding recorder
recorder-body limit ps =
    (write_all-sent ps (recorder limit), ground (arith, write_all-kept ps (recorder limit)))

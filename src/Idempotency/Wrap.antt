-- ===== src/Idempotency/Wrap.antt =====
-- services/api/internal/idempotency/idempotency.go: Middleware.Wrap around a handler. The handler,
-- and the application's state that it changes, are parameters; `take` bytes of the body reach it.
use Prim.Native.String.{len}
use cofound.Prelude.{
  ℕ, zero, suc, ◌+◌, String, Option, none, some, List, [], ◌∷◌, ◌++◌, ltb, leb, ◌=s◌, length,
  trim_space, lookup, if◌then◌else◌,
}
use cofound.Errs.Types.{Fault, GoError, leaf, typed}
use cofound.Errs.Build.{invalid_field, invalid_body}
use cofound.Idempotency.Keys.{
  Stored, Table, Refuses, Middleware, Call, Claim, run, replay, refuse, claim, complete, release,
  max_key_length,
}
use cofound.Idempotency.Recorder.{Recorder, recorder, write_header, write_all}

-- The first `n` bytes.
unfoldable pub take {ℓ} : {A : Type ℓ} → ℕ → List A → List A
take zero xs = []
take (suc n) [] = []
take (suc n) (x ∷ xs) = x ∷ take n xs

-- What a handler does to its ResponseWriter: a status, or none, the pieces of the body, and the
-- headers that it sets.
pub record Output : Type 0 where
  pub status : Option ℕ
  pub pieces : List (List ℕ)
  pub headers : List (String × String)

abbrev pub Handler : Type 0 → Type 0
Handler S = List ℕ → S → S × Output

-- A request: `org` is that of the membership in its context; a body of `none` fails to be read.
pub record Request : Type 0 where
  pub key_header : String
  pub method : String
  pub path : String
  pub org : Option ℕ
  pub body : Option (List ℕ)

-- What the client is sent: the handler's own response, a stored one as it is replayed, or an error.
pub data Reply : Type 0 where
  fresh : Output → Reply
  replayed : Stored → Reply
  failed : GoError → Reply

abbrev start : ℕ → Output → Recorder
start limit out = elim out.status [
  | none ↦ recorder limit
  | some s ↦ write_header s (recorder limit)
]

-- The recorder after the handler has run.
unfoldable pub recorded : ℕ → Output → Recorder
recorded limit out = write_all out.pieces (start limit out)

unfoldable pub header : String → List (String × String) → List (String × String)
header k hs = elim (lookup k hs) [ none ↦ [] | some v ↦ if v =s "" then [] else (k, v) ∷ [] ]

-- What complete keeps of a response: no header but Content-Type and Location.
unfoldable pub kept : ℕ → Output → Stored
kept limit out = record {
  status = (recorded limit out).status;
  body = (recorded limit out).body;
  headers = header "Content-Type" out.headers ++ header "Location" out.headers;
}

-- stored.writeTo: what a replay sends, with the header that marks it.
unfoldable pub write_to : Stored → Stored
write_to s = record s { headers = s.headers ++ ("Idempotency-Replayed", "true") ∷ [] }

-- The request as claim sees it.
abbrev pub call_of : Middleware → Request → String → ℕ → List ℕ → Call
call_of m r key org body = record {
  org = org;
  key = key;
  method = r.method;
  path = r.path;
  hash = m.digest body;
}

module _ {S : Type 0} (m : Middleware) (handler : Handler S) where
  -- The end of Wrap: run the handler, and release or complete the key.
  unfoldable pub execute : Refuses → Call → List ℕ → Table → S → Table × S × Reply
  execute bad c body t s =
      let (s', out) = handler body s in
      if leb 500 (recorded m.max_body out).status
      then (release bad c t, s', fresh out)
      else (complete bad c (kept m.max_body out) t, s', fresh out)

  unfoldable pub follow : Refuses → Call → List ℕ → S → Table × Claim → Table × S × Reply
  unfolding write_to
  follow bad c body s (t, refuse e) = (t, s, failed e)
  follow bad c body s (t, replay r) = (t, s, replayed (write_to r))
  follow bad c body s (t, run) = execute bad c body t s

  -- The handler with no idempotency.
  unfoldable pub pass : List ℕ → Table → S → Table × S × Reply
  pass body t s = let (s', out) = handler body s in (t, s', fresh out)

  unfoldable pub keyed : Refuses → ℕ → Request → String → ℕ → List ℕ → Table → S → Table × S × Reply
  keyed bad now r key org body t s =
      let c = call_of m r key org body in follow bad c body s (claim m bad c now t)

  -- The body of a request that has a key and an org. At most `max_body + 1` bytes of it are read,
  -- and a request longer than that goes on with those alone.
  unfoldable pub with_body :
      Refuses → ℕ → Request → String → ℕ → Option (List ℕ) → Table → S → Table × S × Reply
  with_body bad now r key org none t s =
      (t, s, failed (typed (invalid_body (leaf (Fault.driver "body")))))
  with_body bad now r key org (some sent) t s =
      let body = take (m.max_body + 1) sent in
      if ltb m.max_body (length body) then pass body t s else keyed bad now r key org body t s

  abbrev all_of : Option (List ℕ) → List ℕ
  all_of none = []
  all_of (some b) = b

  -- Wrap
  unfoldable pub serve : Refuses → ℕ → Request → Table → S → Table × S × Reply
  serve bad now r t s =
      let key = trim_space r.key_header in
      if key =s ""
      then pass (all_of r.body) t s
      else if ltb max_key_length (len key)
      then (t, s, failed (typed (invalid_field "Idempotency-Key" "must be at most 255 characters")))
      else elim r.org [
        | none ↦ pass (all_of r.body) t s
        | some org ↦ with_body bad now r key org r.body t s
      ]

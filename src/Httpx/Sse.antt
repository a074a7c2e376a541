-- ===== src/Httpx/Sse.antt =====
-- packages/chassis/httpx/stream.go: Event.Encode. Texts and data are lists of bytes, a time is in
-- nanoseconds.
pub mod Client
pub mod Decimal
pub mod Lines
pub mod Frames
pub mod Relayed
pub mod Received
use cofound.Prelude.{
  ℕ, zero, suc, ◌+◌, ◌*◌, ◌/◌, ◌%◌, Bool, ◌||◌, List, [], ◌∷◌, ◌++◌, ltb, ◌==◌, if◌then◌else◌,
}
use cofound.Errs.Code.{codes}

abbrev pub lf : ℕ
lf = 10

abbrev pub cr : ℕ
cr = 13

-- Event
pub record Event : Type 0 where
  pub id : List ℕ
  pub name : List ℕ
  pub body : List ℕ
  pub retry : ℕ

-- sanitizeField
unfoldable pub sanitize_field : List ℕ → List ℕ
sanitize_field [] = []
sanitize_field (c ∷ cs) =
    let rest = sanitize_field cs in if c == cr || c == lf then rest else c ∷ rest

-- `strings.ReplaceAll(s, "\r\n", "\n")`
unfoldable pub fold_crlf : List ℕ → List ℕ
fold_crlf [] = []
fold_crlf (c ∷ []) = c ∷ []
fold_crlf (c ∷ d ∷ cs) =
    let rest = fold_crlf (d ∷ cs) in
    if c == cr then (if d == lf then rest else c ∷ rest) else c ∷ rest

-- `strings.ReplaceAll(s, "\r", "\n")`
unfoldable pub fold_cr : List ℕ → List ℕ
fold_cr [] = []
fold_cr (c ∷ cs) = (if c == cr then lf else c) ∷ fold_cr cs

unfoldable pub normalise : List ℕ → List ℕ
unfolding fold_crlf fold_cr
normalise cs = fold_cr (fold_crlf cs)

abbrev pub on_head : ℕ → List (List ℕ) → List (List ℕ)
on_head c [] = (c ∷ []) ∷ []
on_head c (l ∷ ls) = (c ∷ l) ∷ ls

-- `strings.Split(s, "\n")`
unfoldable pub split_lf : List ℕ → List (List ℕ)
split_lf [] = [] ∷ []
split_lf (c ∷ cs) = let rest = split_lf cs in if c == lf then [] ∷ rest else on_head c rest

-- The digits of a number below 10 ^ fuel; strconv.FormatInt takes one digit more than it has fuel
-- for only where there is none left.
unfoldable pub digits : ℕ → ℕ → List ℕ
digits zero n = []
digits (suc fuel) n =
    let more = digits fuel (n / 10) ++ (b'0' + n % 10) ∷ [] in
    if ltb n 10 then (b'0' + n) ∷ [] else more

-- strconv.FormatInt, with fuel for every number.
unfoldable pub format_int : ℕ → List ℕ
unfolding digits
format_int n = digits (suc n) n

-- One line of a frame.
abbrev pub line : List ℕ → List ℕ
line l = l ++ lf ∷ []

unfoldable pub data_lines : List (List ℕ) → List ℕ
data_lines [] = []
data_lines (l ∷ ls) = line (codes "data: " ++ l) ++ data_lines ls

abbrev pub is_empty : List ℕ → Bool
is_empty [] = Bool.true
is_empty (c ∷ cs) = Bool.false

-- `if field != "" { … }`
unfoldable pub field_line : List ℕ → List ℕ → List ℕ
unfolding sanitize_field
field_line label value = if is_empty value then [] else line (label ++ sanitize_field value)

unfoldable pub retry_line : ℕ → List ℕ
retry_line retry =
    if ltb 0 retry then line (codes "retry: " ++ format_int (retry / 1000000)) else []

-- Event.Encode
unfoldable pub encode : Event → List ℕ
unfolding field_line retry_line data_lines
encode e =
    field_line (codes "id: ") e.id
    ++ (field_line (codes "event: ") e.name
        ++ (retry_line e.retry
            ++ ((if is_empty (normalise e.body)
                  then line (codes "data: ")
                  else data_lines (split_lf (normalise e.body)))
                ++ lf ∷ [])))

-- What Stream.Comment writes.
unfoldable pub comment : List ℕ → List ℕ
unfolding sanitize_field
comment text = codes ": " ++ (sanitize_field text ++ lf ∷ lf ∷ [])

-- The writes of Send and of Comment, in their order.
pub data Write : Type 0 where
  sends : Event → Write
  comments : List ℕ → Write

unfoldable pub written : List Write → List ℕ
written [] = []
written (sends e ∷ ws) = encode e ++ written ws
written (comments t ∷ ws) = comment t ++ written ws

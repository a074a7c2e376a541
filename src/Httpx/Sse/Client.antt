-- ===== src/Httpx/Sse/Client.antt =====
-- What a client makes of an event stream: the interpretation of the HTML standard ("Server-sent
-- events"), written independently of packages/chassis/httpx/stream.go.
use cofound.Prelude.{
  ℕ, ◌+◌, ◌-◌, ◌*◌, Bool, true, false, ◌&&◌, not, List, [], ◌∷◌, ◌++◌, ◌==◌, if◌then◌else◌,
}
use cofound.Errs.Code.{codes, is_digit, all_chars}
use cofound.Httpx.Sse.{lf, cr, is_empty}

-- The complete lines of a stream; one ends with LF, CR, or CR LF. `skip` says that the last byte was
-- a CR, after which an LF ends nothing.
unfoldable pub lines_from : List ℕ → Bool → List ℕ → List (List ℕ)
lines_from acc skip [] = []
lines_from acc skip (c ∷ cs) =
    let ended = acc ∷ lines_from [] false cs in
    let after_cr = acc ∷ lines_from [] true cs in
    let ignored = lines_from acc false cs in
    let longer = lines_from (acc ++ c ∷ []) false cs in
    if c == lf then (if skip then ignored else ended) else if c == cr then after_cr else longer

unfoldable pub lines : List ℕ → List (List ℕ)
unfolding lines_from
lines cs = lines_from [] false cs

unfoldable pub drop_space : List ℕ → List ℕ
drop_space [] = []
drop_space (c ∷ cs) = if c == 32 then cs else c ∷ cs

-- A line up to its first colon, and what follows it.
unfoldable pub field_name : List ℕ → List ℕ
field_name [] = []
field_name (c ∷ cs) = let rest = field_name cs in if c == b':' then [] else c ∷ rest

unfoldable pub field_value : List ℕ → List ℕ
unfolding drop_space
field_value [] = []
field_value (c ∷ cs) = let rest = field_value cs in if c == b':' then drop_space cs else rest

unfoldable pub same : List ℕ → List ℕ → Bool
same [] [] = true
same [] (d ∷ ds) = false
same (c ∷ cs) [] = false
same (c ∷ cs) (d ∷ ds) = c == d && same cs ds

unfoldable pub decimal_from : ℕ → List ℕ → ℕ
decimal_from n [] = n
decimal_from n (c ∷ cs) = decimal_from (10 * n + (c - b'0')) cs

unfoldable pub has_nul : List ℕ → Bool
has_nul [] = false
has_nul (c ∷ cs) = if c == 0 then true else has_nul cs

-- The event type buffer, the data buffer as its lines, the last event id and the reconnection time.
pub record Buffer : Type 0 where
  pub name : List ℕ
  pub body : List (List ℕ)
  pub last_id : List ℕ
  pub retry : ℕ

pub record Message : Type 0 where
  pub name : List ℕ
  pub body : List ℕ
  pub last_id : List ℕ

unfoldable pub join_lf : List (List ℕ) → List ℕ
join_lf [] = []
join_lf (l ∷ []) = l
join_lf (l ∷ k ∷ ls) = l ++ lf ∷ join_lf (k ∷ ls)

abbrev is_number : List ℕ → Bool
is_number v = not (is_empty v) && all_chars is_digit v

-- A line that is not empty.
unfoldable pub take_field : List ℕ → List ℕ → Buffer → Buffer
unfolding same has_nul decimal_from
take_field n v b =
    if same n (codes "data")
    then record b { body = b.body ++ v ∷ [] }
    else if same n (codes "event")
    then record b { name = v }
    else if same n (codes "id")
    then (if has_nul v then b else record b { last_id = v })
    else if same n (codes "retry")
    then (if is_number v then record b { retry = decimal_from 0 v } else b)
    else b

unfoldable pub take_line : List ℕ → Buffer → Buffer
unfolding field_name field_value take_field
take_line l b = take_field (field_name l) (field_value l) b

unfoldable pub cleared : Buffer → Buffer
cleared b = record b { name = []; body = [] }

-- An empty line: the message, if there are data.
unfoldable pub dispatched : Buffer → List Message
unfolding join_lf
dispatched b = elim b.body [
  | [] ↦ []
  | l ∷ ls ↦ record { name = b.name; body = join_lf b.body; last_id = b.last_id } ∷ []
]

-- The messages of a stream's lines, and what is left when they have been read.
unfoldable pub read : List (List ℕ) → Buffer → List Message × Buffer
unfolding take_line dispatched cleared
read [] b = ([], b)
read ([] ∷ ls) b = let (ms, end) = read ls (cleared b) in (dispatched b ++ ms, end)
read ((c ∷ l) ∷ ls) b = read ls (take_line (c ∷ l) b)

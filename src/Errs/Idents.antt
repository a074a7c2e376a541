-- ===== src/Errs/Idents.antt =====
-- packages/chassis/errs/constructors.go: the identifiers that a message may repeat.
use Prim.Native.String.{◌++◌}
use cofound.Prelude.{
  ℕ, String, Bool, ◌||◌, Option, none, some, List, [], ◌∷◌, ltb, ◌==◌, ◌=s◌, lookup, length,
  if◌then◌else◌,
}
use cofound.Errs.Code.{codes, is_lower, is_upper, is_digit, all_chars}

unfoldable pub is_ident : ℕ → Bool
unfolding is_lower is_upper is_digit
is_ident c = is_lower c || is_upper c || is_digit c || c == b'.' || c == b'_' || c == b'-'

-- SanitizeIdent; `none` for its false.
unfoldable pub sanitize_ident : String → Option String
unfolding is_ident all_chars
sanitize_ident s =
    if s =s "" || ltb 64 (length (codes s))
    then none
    else if all_chars is_ident (codes s)
    then some s
    else none

unfoldable pub uppers : List (String × String)
uppers =
    ("a", "A")
    ∷ ("b", "B")
    ∷ ("c", "C")
    ∷ ("d", "D")
    ∷ ("e", "E")
    ∷ ("f", "F")
    ∷ ("g", "G")
    ∷ ("h", "H")
    ∷ ("i", "I")
    ∷ ("j", "J")
    ∷ ("k", "K")
    ∷ ("l", "L")
    ∷ ("m", "M")
    ∷ ("n", "N")
    ∷ ("o", "O")
    ∷ ("p", "P")
    ∷ ("q", "Q")
    ∷ ("r", "R")
    ∷ ("s", "S")
    ∷ ("t", "T")
    ∷ ("u", "U")
    ∷ ("v", "V")
    ∷ ("w", "W")
    ∷ ("x", "X")
    ∷ ("y", "Y")
    ∷ ("z", "Z")
    ∷ []

-- titleFirst; a first letter outside ASCII is kept, the kinds of the source being ASCII words.
unfoldable pub title_first : String → String
unfolding uppers lookup
title_first String.[] = "That"
title_first (String.◌∷◌ c s) = elim (lookup (String.◌∷◌ c String.[]) uppers) [
  | none ↦ String.◌∷◌ c s
  | some u ↦ u ++ s
]

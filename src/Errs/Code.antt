-- ===== src/Errs/Code.antt =====
-- packages/chassis/errs/code.go: error codes, and the pattern `^[a-z][a-z0-9_]*$` that the decoder
-- of every client enforces. A character is its code point.
use Prim.Native.Char.{code}
use cofound.Prelude.{
  ℕ, String, Bool, true, false, ◌&&◌, ◌||◌, List, [], ◌∷◌, leb, ◌==◌, if◌then◌else◌,
}

abbrev pub Code : Type 0
Code = String

-- The code points of a text.
abbrev pub codes : String → List ℕ
codes String.[] = []
codes (String.◌∷◌ c s) = code c ∷ codes s

unfoldable pub is_lower : ℕ → Bool
is_lower c = leb b'a' c && leb c b'z'

unfoldable pub is_upper : ℕ → Bool
is_upper c = leb b'A' c && leb c b'Z'

unfoldable pub is_digit : ℕ → Bool
is_digit c = leb b'0' c && leb c b'9'

unfoldable pub all_chars : (ℕ → Bool) → List ℕ → Bool
all_chars p [] = true
all_chars p (c ∷ cs) = if p c then all_chars p cs else false

-- The pattern after its first character.
unfoldable pub is_word : ℕ → Bool
unfolding is_lower is_digit
is_word c = is_lower c || is_digit c || c == b'_'

unfoldable pub matches_code : List ℕ → Bool
unfolding is_lower is_word all_chars
matches_code [] = false
matches_code (c ∷ cs) = is_lower c && all_chars is_word cs

-- Code.Valid
unfoldable pub is_valid : Code → Bool
unfolding matches_code
is_valid c = matches_code (codes c)

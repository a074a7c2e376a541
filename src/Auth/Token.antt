-- ===== src/Auth/Token.antt =====
-- services/api/internal/auth/token.go. A token is 43 characters of base64url, which stand for 32
-- bytes; the database holds its hash only.
use cofound.Prelude.{
  ℕ, String, Bool, not, ◌&&◌, ◌||◌, ◌%◌, Option, none, some, List, [], ◌∷◌, ◌==◌, ◌=s◌, length,
  if◌then◌else◌,
}
use cofound.Errs.Code.{codes, is_lower, is_upper, is_digit, all_chars}

-- The zero value has the empty text.
pub record Token : Type 0 where
  pub raw : String

abbrev pub Hash : Type 0
Hash = ℕ

-- IsZero
unfoldable pub is_zero : Token → Bool
is_zero t = t.raw =s ""

abbrev pub zero_token : Token
zero_token = record { raw = "" }

-- The alphabet of base64.RawURLEncoding.
unfoldable pub is_base64url : ℕ → Bool
unfolding is_lower is_upper is_digit
is_base64url c = is_lower c || is_upper c || is_digit c || c == b'-' || c == b'_'

-- The decoder skips line ends.
unfoldable pub is_line_end : ℕ → Bool
is_line_end c = c == 10 || c == 13

unfoldable pub drop_line_ends : List ℕ → List ℕ
unfolding is_line_end
drop_line_ends [] = []
drop_line_ends (c ∷ cs) = let rest = drop_line_ends cs in if is_line_end c then rest else c ∷ rest

-- Whether RawURLEncoding decodes: characters of the alphabet, and no lone one at the end. It does
-- not look at the trailing bits.
unfoldable pub decodes : List ℕ → Bool
unfolding is_base64url all_chars
decodes cs = all_chars is_base64url cs && not (length cs % 4 == 1)

-- ParseToken. The length is that of 32 encoded bytes.
unfoldable pub parse_token : String → Option Token
unfolding decodes drop_line_ends
parse_token raw =
    if length (codes raw) == 43 && decodes (drop_line_ends (codes raw))
    then some (record { raw = raw })
    else none

-- ===== src/V1/Slugs.antt =====
-- services/api/internal/v1/orgs.go: the slug that is suggested for a name, and which slugs are valid.
-- A name is a list of code points.
pub mod Valid
use cofound.Prelude.{
  ℕ, zero, suc, ◌+◌, Bool, true, false, not, ◌&&◌, ◌||◌, List, [], ◌∷◌, leb, ltb, ◌==◌, length,
  if◌then◌else◌,
}

abbrev pub dash : ℕ
dash = 45

-- `[a-z0-9]`
unfoldable pub is_plain : ℕ → Bool
is_plain c = (leb 97 c && leb c 122) || (leb 48 c && leb c 57)

-- unicode.ToLower, as far as it gives `[a-z0-9]`: of the letters outside ASCII, the Kelvin sign and
-- the dotted capital I have one in ASCII.
unfoldable pub lower : ℕ → ℕ
lower c =
    if leb 65 c && leb c 90
    then c + 32
    else if c == 0x212A
    then 107
    else if c == 0x130
    then 105
    else c

-- strings.ToLower, and every run of other characters as a dash; whether one is running.
unfoldable pub dashed : Bool → List ℕ → List ℕ
unfolding is_plain lower
dashed running [] = []
dashed running (c ∷ cs) =
    let plain = dashed false cs in
    let other = dashed true cs in
    if is_plain (lower c) then lower c ∷ plain else if running then other else dash ∷ other

unfoldable pub trim_dashes : List ℕ → List ℕ
trim_dashes [] = []
trim_dashes (c ∷ cs) = let rest = trim_dashes cs in if c == dash then rest else c ∷ cs

unfoldable pub keep_last : ℕ → List ℕ → List ℕ
keep_last c [] = if c == dash then [] else c ∷ []
keep_last c (d ∷ ds) = c ∷ d ∷ ds

unfoldable pub trim_last : List ℕ → List ℕ
unfolding keep_last
trim_last [] = []
trim_last (c ∷ cs) = keep_last c (trim_last cs)

-- `strings.Trim(s, "-")`
unfoldable pub trimmed : List ℕ → List ℕ
unfolding trim_dashes trim_last
trimmed cs = trim_last (trim_dashes cs)

unfoldable pub cut_at : ℕ → List ℕ → List ℕ
cut_at zero cs = []
cut_at (suc n) [] = []
cut_at (suc n) (c ∷ cs) = c ∷ cut_at n cs

-- slugify
unfoldable pub slugify : List ℕ → List ℕ
unfolding dashed trimmed cut_at
slugify name =
    let s = trimmed (dashed false name) in if ltb 63 (length s) then trimmed (cut_at 63 s) else s

unfoldable pub is_slug_char : ℕ → Bool
unfolding is_plain
is_slug_char c = is_plain c || c == dash

-- What follows the first character: nothing, or up to 62 more, the last of which is plain.
unfoldable pub is_tail : ℕ → List ℕ → Bool
unfolding is_slug_char
is_tail n [] = true
is_tail zero (c ∷ cs) = false
is_tail (suc n) (c ∷ []) = is_plain c
is_tail (suc n) (c ∷ d ∷ cs) = is_slug_char c && is_tail n (d ∷ cs)

-- validSlug
unfoldable pub valid_slug : List ℕ → Bool
unfolding is_tail
valid_slug [] = false
valid_slug (c ∷ cs) = is_plain c && is_tail 62 cs

-- ===== src/Config/Parse.antt =====
-- packages/chassis/config/loader.go: how the texts of variables are read. An int has 64 bits.
use Prim.Native.Char.{Char, code}
use cofound.Prelude.{
  ℕ, zero, suc, ◌+◌, ◌-◌, ◌*◌, ◌%◌, ◌^◌, String, Bool, true, false, ◌&&◌, Option, none, some, List,
  [], ◌∷◌, leb, ltb, ◌==◌, ◌=s◌, trim_space, is_space, if◌then◌else◌,
}
use cofound.Errs.Code.{codes, is_digit}

pub data ℤ : Type 0 where
  pos : ℕ → ℤ
  negsuc : ℕ → ℤ

abbrev pub leb_int : ℤ → ℤ → Bool
leb_int (pos a) (pos b) = leb a b
leb_int (pos a) (negsuc b) = false
leb_int (negsuc a) (pos b) = true
leb_int (negsuc a) (negsuc b) = leb b a

unfoldable pub digits_from : ℕ → List ℕ → Option ℕ
digits_from n [] = some n
digits_from n (c ∷ cs) =
    let rest = digits_from (n * 10 + (c - 48)) cs in if is_digit c then rest else none

unfoldable pub magnitude : List ℕ → Option ℕ
unfolding digits_from
magnitude [] = none
magnitude (c ∷ cs) = digits_from 0 (c ∷ cs)

abbrev negated : ℕ → ℤ
negated zero = pos zero
negated (suc n) = negsuc n

-- strconv.Atoi, on the codes of a text.
unfoldable pub signed : List ℕ → Option ℤ
unfolding magnitude
signed [] = none
signed (c ∷ cs) =
    if c == 45
    then elim (magnitude cs) [
      | none ↦ none
      | some n ↦ if leb n (2 ^ 63) then some (negated n) else none
    ]
    else elim (magnitude (if c == 43 then cs else c ∷ cs)) [
      | none ↦ none
      | some n ↦ if ltb n (2 ^ 63) then some (pos n) else none
    ]

unfoldable pub atoi : String → Option ℤ
unfolding signed
atoi s = signed (codes s)

-- An int of 64 bits, from its value modulo 2 ^ 64.
unfoldable pub wrapped : ℕ → ℤ
wrapped m = if ltb m (2 ^ 63) then pos m else negated (2 ^ 64 - m)

-- `n * mult`, on 64 bits.
unfoldable pub times : ℤ → ℕ → ℤ
unfolding wrapped
times (pos n) mult = wrapped (n * mult % 2 ^ 64)
times (negsuc n) mult = wrapped ((2 ^ 64 - suc n * mult % 2 ^ 64) % 2 ^ 64)

abbrev upper_code : ℕ → ℕ
upper_code c = if leb 97 c && leb c 122 then c - 32 else c

-- strings.ToUpper; outside ASCII no letter becomes one of a suffix, and none is a digit.
unfoldable pub to_upper : List ℕ → List ℕ
to_upper [] = []
to_upper (c ∷ cs) = upper_code c ∷ to_upper cs

abbrev pub same_codes : List ℕ → List ℕ → Bool
same_codes [] [] = true
same_codes (a ∷ xs) (b ∷ ys) = (a == b) && same_codes xs ys
same_codes xs ys = false

-- The text before a suffix, if it ends in it.
unfoldable pub trim_suffix : List ℕ → List ℕ → Option (List ℕ)
trim_suffix suffix [] = if same_codes [] suffix then some [] else none
trim_suffix suffix (c ∷ cs) =
    let rest = trim_suffix suffix cs in
    if same_codes (c ∷ cs) suffix
    then some []
    else elim rest [ none ↦ none | some xs ↦ some (c ∷ xs) ]

-- The suffixes, in the order in which they are tried, and what each multiplies by.
abbrev pub units : List (List ℕ × ℕ)
units = (codes "GB", 2 ^ 30) ∷ (codes "MB", 2 ^ 20) ∷ (codes "KB", 2 ^ 10) ∷ (codes "B", 1) ∷ []

unfoldable pub split_unit : List (List ℕ × ℕ) → List ℕ → List ℕ × ℕ
unfolding trim_suffix
split_unit [] cs = (cs, 1)
split_unit ((suffix, mult) ∷ us) cs =
    let rest = split_unit us cs in
    elim (trim_suffix suffix cs) [ none ↦ rest | some xs ↦ (xs, mult) ]

-- strings.TrimSpace, of a text that begins with no blank.
unfoldable pub trim_end : List ℕ → List ℕ
unfolding is_space
trim_end [] = []
trim_end (c ∷ cs) =
    let rest = trim_end cs in
    elim rest [ [] ↦ (if is_space c then [] else c ∷ []) | d ∷ ds ↦ c ∷ d ∷ ds ]

-- parseBytes
unfoldable pub parse_bytes : String → Option ℤ
unfolding signed times to_upper split_unit trim_end
parse_bytes s =
    let (cs, mult) = split_unit units (to_upper (codes (trim_space s))) in
    elim (signed (trim_end cs)) [ none ↦ none | some n ↦ some (times n mult) ]

-- strconv.ParseBool
unfoldable pub parse_bool : String → Option Bool
parse_bool s =
    if s =s "1"
    then some true
    else if s =s "t"
    then some true
    else if s =s "T"
    then some true
    else if s =s "true"
    then some true
    else if s =s "TRUE"
    then some true
    else if s =s "True"
    then some true
    else if s =s "0"
    then some false
    else if s =s "f"
    then some false
    else if s =s "F"
    then some false
    else if s =s "false"
    then some false
    else if s =s "FALSE"
    then some false
    else if s =s "False"
    then some false
    else none

abbrev pub on_first : Char → List String → List String
on_first c [] = (String.◌∷◌ c "") ∷ []
on_first c (s ∷ ss) = String.◌∷◌ c s ∷ ss

-- strings.Split at commas.
unfoldable pub split_comma : String → List String
split_comma String.[] = "" ∷ []
split_comma (String.◌∷◌ c s) =
    let rest = split_comma s in if code c == 44 then "" ∷ rest else on_first c rest

-- `strings.Cut(s, "=")`
unfoldable pub cut_equals : String → Option (String × String)
cut_equals String.[] = none
cut_equals (String.◌∷◌ c s) =
    let rest = cut_equals s in
    if code c == 61
    then some ("", s)
    else elim rest [ none ↦ none | some kv ↦ some (String.◌∷◌ c kv.0, kv.1) ]

-- The parts between commas, trimmed, without the blank ones.
unfoldable pub parts_of : List String → List String
parts_of [] = []
parts_of (s ∷ ss) =
    let rest = parts_of ss in if trim_space s =s "" then rest else trim_space s ∷ rest

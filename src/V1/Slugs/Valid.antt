-- ===== src/V1/Slugs/Valid.antt =====
-- The suggested slug is valid, or empty.
use cofound.Prelude.{
  ℕ, zero, suc, ◌≤◌, ◌≡◌, ◌⊎◌, refl, inl, inr, Bool, true, false, not, ◌&&◌, List, [], ◌∷◌, ltb,
  ◌==◌, length, arith, Bool-cases,
}
use cofound.V1.Slugs.{
  dash, dashed, trim_dashes, keep_last, trim_last, trimmed, cut_at, slugify, is_slug_char, is_tail,
  valid_slug,
}

-- Every character is one of a slug.
unfoldable all_slug : List ℕ → Bool
all_slug [] = true
all_slug (c ∷ cs) = is_slug_char c && all_slug cs

dashed_slug : (running : Bool) (cs : List ℕ) → all_slug (dashed running cs) ≡ true
unfolding dashed all_slug is_slug_char
dashed_slug running [] = refl
dashed_slug running (c ∷ cs) = ground (arith, dashed_slug true cs, dashed_slug false cs)

trim_dashes_slug :
    (cs : List ℕ)
    → all_slug cs ≡ true
    → (all_slug (trim_dashes cs) ≡ true) × (length (trim_dashes cs) ≤ length cs)
unfolding trim_dashes all_slug
trim_dashes_slug [] h = (refl, omega arith)
trim_dashes_slug (c ∷ cs) h = ground (arith, trim_dashes_slug cs)

cut_slug :
    (n : ℕ) (cs : List ℕ)
    → all_slug cs ≡ true
    → (all_slug (cut_at n cs) ≡ true) × (length (cut_at n cs) ≤ n)
unfolding cut_at all_slug
cut_slug zero cs h = (refl, omega arith)
cut_slug (suc n) [] h = (refl, omega arith)
cut_slug (suc n) (c ∷ cs) h = ground (arith, cut_slug n cs)

-- The first character, where there is one, is no dash.
unfoldable starts_plain : List ℕ → Bool
starts_plain [] = true
starts_plain (c ∷ cs) = not (c == dash)

trim_dashes_starts : (cs : List ℕ) → starts_plain (trim_dashes cs) ≡ true
unfolding trim_dashes starts_plain
trim_dashes_starts [] = refl
trim_dashes_starts (c ∷ cs) = ground (arith, trim_dashes_starts cs)

keep_last_tail :
    (n c : ℕ) (rest : List ℕ)
    → is_slug_char c ≡ true
    → ((m : ℕ) → length rest ≤ m → is_tail m rest ≡ true)
    → length (keep_last c rest) ≤ n
    → is_tail n (keep_last c rest) ≡ true
unfolding keep_last is_tail is_slug_char
keep_last_tail zero c [] h t l = ground arith
keep_last_tail (suc n) c [] h t l = ground arith
keep_last_tail zero c (d ∷ ds) h t l = ground arith
keep_last_tail (suc n) c (d ∷ ds) h t l = ground (arith, t n)

-- Trimming the end leaves a tail that the pattern takes.
trim_last_tail :
    (cs : List ℕ)
    → all_slug cs ≡ true
    → (n : ℕ) → length (trim_last cs) ≤ n
    → is_tail n (trim_last cs) ≡ true
unfolding trim_last is_tail all_slug
trim_last_tail [] h n l = refl
trim_last_tail (c ∷ cs) h n l =
    keep_last_tail n c (trim_last cs) (ground arith) (trim_last_tail cs (ground arith)) l

keep_last_valid :
    (c : ℕ) (rest : List ℕ)
    → is_slug_char c ≡ true
    → (c == dash) ≡ false
    → ((m : ℕ) → length rest ≤ m → is_tail m rest ≡ true)
    → length (keep_last c rest) ≤ 63
    → valid_slug (keep_last c rest) ≡ true
unfolding keep_last valid_slug is_tail is_slug_char
keep_last_valid c [] h s t l = ground arith
keep_last_valid c (d ∷ ds) h s t l = ground (arith, t 62)

trim_last_valid :
    (cs : List ℕ)
    → all_slug cs ≡ true
    → starts_plain cs ≡ true
    → length (trim_last cs) ≤ 63
    → (trim_last cs ≡ []) ⊎ (valid_slug (trim_last cs) ≡ true)
unfolding trim_last all_slug starts_plain
trim_last_valid [] h s l = inl refl
trim_last_valid (c ∷ cs) h s l = inr (
    keep_last_valid c (trim_last cs) (ground arith) (ground arith)
      (trim_last_tail cs (ground arith)) l)

keep_last_le : (c : ℕ) (rest : List ℕ) → (length (keep_last c rest) ≤ suc (length rest))
unfolding keep_last
keep_last_le c [] = ground arith
keep_last_le c (d ∷ ds) = omega arith

trim_last_le : (cs : List ℕ) → length (trim_last cs) ≤ length cs
unfolding trim_last
trim_last_le [] = omega arith
trim_last_le (c ∷ cs) = omega (arith, trim_last_le cs, keep_last_le c (trim_last cs))

keep_last_slug :
    (c : ℕ) (rest : List ℕ)
    → is_slug_char c ≡ true
    → all_slug rest ≡ true
    → all_slug (keep_last c rest) ≡ true
unfolding keep_last all_slug
keep_last_slug c [] h k = ground arith
keep_last_slug c (d ∷ ds) h k = ground arith

trim_last_slug : (cs : List ℕ) → all_slug cs ≡ true → all_slug (trim_last cs) ≡ true
unfolding trim_last all_slug
trim_last_slug [] h = refl
trim_last_slug (c ∷ cs) h =
    keep_last_slug c (trim_last cs) (ground arith) (trim_last_slug cs (ground arith))

trimmed_valid :
    (cs : List ℕ)
    → all_slug cs ≡ true
    → length (trimmed cs) ≤ 63
    → (trimmed cs ≡ []) ⊎ (valid_slug (trimmed cs) ≡ true)
unfolding trimmed
trimmed_valid cs h l =
    trim_last_valid (trim_dashes cs) (trim_dashes_slug cs h).0 (trim_dashes_starts cs) l

trimmed_le :
    (cs : List ℕ)
    → all_slug cs ≡ true
    → (all_slug (trimmed cs) ≡ true) × (length (trimmed cs) ≤ length cs)
unfolding trimmed
trimmed_le cs h =
    let (k, l) = trim_dashes_slug cs h in
    (trim_last_slug (trim_dashes cs) k, omega (arith, l, trim_last_le (trim_dashes cs)))

-- For any name, the suggested slug is empty or valid.
pub slugify-valid_slug : (name : List ℕ) → (slugify name ≡ []) ⊎ (valid_slug (slugify name) ≡ true)
unfolding slugify
slugify-valid_slug name =
    let h = dashed_slug false name in
    let s = trimmed (dashed false name) in
    let (cut, short) = cut_slug 63 s (trimmed_le (dashed false name) h).0 in
    elim (Bool-cases (ltb 63 (length s))) [
      | inl long ↦
          rw long (
            trimmed_valid (cut_at 63 s) cut
              (omega (arith, short, (trimmed_le (cut_at 63 s) cut).1)))
      | inr fits ↦ rw fits (trimmed_valid (dashed false name) h (ground arith))
    ]

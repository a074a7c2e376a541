-- ===== src/Httpx/Sse/Decimal.antt =====
-- Decimal numbers: what is printed is read back.
use cofound.Prelude.{
  ℕ, zero, suc, ◌+◌, ◌-◌, ◌*◌, ◌/◌, ◌%◌, ◌<◌, ◌≡◌, refl, inl, inr, Bool, true, false, List, [], ◌∷◌,
  ◌++◌, arith, ltb, ◌∙◌, Bool-cases,
}
use cofound.Errs.Code.{is_digit, all_chars}
use cofound.Httpx.Sse.{digits, format_int, is_empty}
use cofound.Httpx.Sse.Client.{decimal_from}

decimal_from-append :
    (n : ℕ) (xs : List ℕ) (c : ℕ)
    → decimal_from n (xs ++ c ∷ []) ≡ 10 * decimal_from n xs + (c - b'0')
unfolding decimal_from
decimal_from-append n [] c = refl
decimal_from-append n (x ∷ xs) c = decimal_from-append (10 * n + (x - b'0')) xs c

all_chars-append :
    (p : ℕ → Bool) (xs : List ℕ) (c : ℕ)
    → all_chars p xs ≡ true
    → p c ≡ true
    → all_chars p (xs ++ c ∷ []) ≡ true
unfolding all_chars
all_chars-append p [] c h k = ground arith
all_chars-append p (x ∷ xs) c h k = ground (arith, all_chars-append p xs c)

-- The digits stand for the number, for any fuel above it.
decimal_from-digits : (fuel n : ℕ) → n < fuel → decimal_from 0 (digits fuel n) ≡ n
unfolding digits decimal_from
decimal_from-digits zero n h = absurd (omega arith)
decimal_from-digits (suc fuel) n h = elim (Bool-cases (ltb n 10)) [
  | inl b ↦ ground arith
  | inr b ↦ rw b (
      decimal_from-append 0 (digits fuel (n / 10)) (b'0' + n % 10)
      ∙ omega (arith, decimal_from-digits fuel (n / 10) (ground arith)))
]

digit_lem : (d : ℕ) → d < 10 → is_digit (b'0' + d) ≡ true
unfolding is_digit
digit_lem d h = ground arith

all_chars-digits : (fuel n : ℕ) → all_chars is_digit (digits fuel n) ≡ true
unfolding digits all_chars
all_chars-digits zero n = refl
all_chars-digits (suc fuel) n = elim (Bool-cases (ltb n 10)) [
  | inl b ↦ rw b (ground (arith, digit_lem n (ground arith)))
  | inr b ↦ rw b (
      all_chars-append is_digit (digits fuel (n / 10)) (b'0' + n % 10)
        (all_chars-digits fuel (n / 10)) (digit_lem (n % 10) (omega arith)))
]

pub decimal_from-format_int : (n : ℕ) → decimal_from 0 (format_int n) ≡ n
unfolding format_int
decimal_from-format_int n = decimal_from-digits (suc n) n (omega arith)

pub all_chars-format_int : (n : ℕ) → all_chars is_digit (format_int n) ≡ true
unfolding format_int
all_chars-format_int n = all_chars-digits (suc n) n

append-not_empty : (xs : List ℕ) (c : ℕ) → is_empty (xs ++ c ∷ []) ≡ false
append-not_empty [] c = refl
append-not_empty (x ∷ xs) c = refl

pub format_int-not_empty : (n : ℕ) → is_empty (format_int n) ≡ false
unfolding format_int digits
format_int-not_empty n = elim (Bool-cases (ltb n 10)) [
  | inl b ↦ rw b refl
  | inr b ↦ rw b (append-not_empty (digits n (n / 10)) (b'0' + n % 10))
]

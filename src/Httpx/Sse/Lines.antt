-- ===== src/Httpx/Sse/Lines.antt =====
-- The lines of a stream, and which texts are one line.
use mathlib.Core.List.{append_assoc, append-nil}
use cofound.Prelude.{
  ℕ, ◌≡◌, refl, sym, ap, ◌∙◌, inl, inr, Bool, true, false, ◌&&◌, ◌||◌, not, List, [], ◌∷◌, ◌++◌,
  arith, ◌==◌, Bool-cases,
}
use cofound.Errs.Code.{is_digit, all_chars}
use cofound.Httpx.Sse.{
  lf, cr, sanitize_field, fold_crlf, fold_cr, normalise, split_lf, on_head, line,
}
use cofound.Httpx.Sse.Client.{lines_from, lines, join_lf}

-- No byte of the line ends it.
unfoldable pub clean : List ℕ → Bool
clean [] = true
clean (c ∷ cs) = not (c == cr || c == lf) && clean cs

unfoldable pub all_clean : List (List ℕ) → Bool
unfolding clean
all_clean [] = true
all_clean (l ∷ ls) = clean l && all_clean ls

unfoldable pub unlines : List (List ℕ) → List ℕ
unlines [] = []
unlines (l ∷ ls) = line l ++ unlines ls

lines_from-line :
    (acc l rest : List ℕ)
    → clean l ≡ true
    → lines_from acc false (l ++ lf ∷ rest) ≡ (acc ++ l) ∷ lines rest
unfolding lines_from lines clean
lines_from-line acc [] rest h = ap (λ x. x ∷ lines_from [] false rest) (sym (append-nil acc))
lines_from-line acc (c ∷ cs) rest h =
    ground (arith, lines_from-line (acc ++ c ∷ []) cs rest, append_assoc acc (c ∷ []) cs)

lines-line : (l rest : List ℕ) → clean l ≡ true → lines (l ++ lf ∷ rest) ≡ l ∷ lines rest
unfolding lines
lines-line l rest h = lines_from-line [] l rest h

joined : (l u rest : List ℕ) → (line l ++ u) ++ rest ≡ l ++ lf ∷ (u ++ rest)
joined l u rest = simp append_assoc

pub lines-unlines :
    (ls : List (List ℕ)) (rest : List ℕ)
    → all_clean ls ≡ true
    → lines (unlines ls ++ rest) ≡ ls ++ lines rest
unfolding unlines all_clean
lines-unlines [] rest h = refl
lines-unlines (l ∷ ls) rest h =
    ap lines (joined l (unlines ls) rest)
    ∙ lines-line l (unlines ls ++ rest) (ground arith)
    ∙ ap (λ x. l ∷ x) (lines-unlines ls rest (ground arith))

pub unlines-append : (xs ys : List (List ℕ)) → unlines (xs ++ ys) ≡ unlines xs ++ unlines ys
unfolding unlines
unlines-append [] ys = refl
unlines-append (x ∷ xs) ys = simp (unlines-append xs ys, append_assoc)

clean-append : (xs ys : List ℕ) → clean xs ≡ true → clean ys ≡ true → clean (xs ++ ys) ≡ true
unfolding clean
clean-append [] ys h k = k
clean-append (x ∷ xs) ys h k = ground (arith, clean-append xs ys)

pub clean-sanitize_field : (xs : List ℕ) → clean (sanitize_field xs) ≡ true
unfolding clean sanitize_field
clean-sanitize_field [] = refl
clean-sanitize_field (x ∷ xs) = ground (arith, clean-sanitize_field xs)

pub clean-digits : (xs : List ℕ) → all_chars is_digit xs ≡ true → clean xs ≡ true
unfolding clean all_chars is_digit
clean-digits [] h = refl
clean-digits (x ∷ xs) h = ground (arith, clean-digits xs)

pub clean-labelled :
    (label v : List ℕ) → clean label ≡ true → clean v ≡ true → clean (label ++ v) ≡ true
clean-labelled label v h k = clean-append label v h k

pub all_clean-append :
    (xs ys : List (List ℕ))
    → all_clean xs ≡ true
    → all_clean ys ≡ true
    → all_clean (xs ++ ys) ≡ true
unfolding all_clean
all_clean-append [] ys h k = k
all_clean-append (x ∷ xs) ys h k = ground (arith, all_clean-append xs ys)

-- No carriage return is left.
unfoldable pub no_cr : List ℕ → Bool
no_cr [] = true
no_cr (c ∷ cs) = not (c == cr) && no_cr cs

no_cr-fold_cr : (ys : List ℕ) → no_cr (fold_cr ys) ≡ true
unfolding no_cr fold_cr
no_cr-fold_cr [] = refl
no_cr-fold_cr (y ∷ ys) = ground (arith, no_cr-fold_cr ys)

pub no_cr-normalise : (xs : List ℕ) → no_cr (normalise xs) ≡ true
unfolding normalise
no_cr-normalise xs = no_cr-fold_cr (fold_crlf xs)

all_clean-cons_empty : (ls : List (List ℕ)) → all_clean ls ≡ true → all_clean ([] ∷ ls) ≡ true
unfolding all_clean clean
all_clean-cons_empty ls h = ground arith

on_head-clean :
    (c : ℕ) (ls : List (List ℕ))
    → (c == cr) ≡ false
    → (c == lf) ≡ false
    → all_clean ls ≡ true
    → all_clean (on_head c ls) ≡ true
unfolding all_clean clean
on_head-clean c [] h k m = ground arith
on_head-clean c (l ∷ ls) h k m = ground arith

pub all_clean-split_lf : (xs : List ℕ) → no_cr xs ≡ true → all_clean (split_lf xs) ≡ true
unfolding split_lf no_cr
all_clean-split_lf [] h = unfold all_clean clean in refl
all_clean-split_lf (x ∷ xs) h = elim (Bool-cases (x == lf)) [
  | inl b ↦ rw b (all_clean-cons_empty (split_lf xs) (all_clean-split_lf xs (ground arith)))
  | inr b ↦
      rw b (on_head-clean x (split_lf xs) (ground arith) b (all_clean-split_lf xs (ground arith)))
]

join_lf-on_head : (c : ℕ) (ls : List (List ℕ)) → join_lf (on_head c ls) ≡ c ∷ join_lf ls
unfolding join_lf
join_lf-on_head c [] = refl
join_lf-on_head c (l ∷ []) = refl
join_lf-on_head c (l ∷ k ∷ ls) = refl

pub split_lf-cons : (xs : List ℕ) → (l : List ℕ) × (ls : List (List ℕ)) × (split_lf xs ≡ l ∷ ls)
unfolding split_lf
split_lf-cons [] = ([], [], refl)
split_lf-cons (x ∷ xs) = elim (Bool-cases (x == lf)) [
  | inl b ↦ ([], split_lf xs, rw b refl)
  | inr b ↦ let (l, ls, e) = split_lf-cons xs in (x ∷ l, ls, rw (b, e) refl)
]

join_lf-empty :
    (ks : List (List ℕ)) (l : List ℕ) (ls : List (List ℕ))
    → ks ≡ l ∷ ls
    → join_lf ([] ∷ ks) ≡ lf ∷ join_lf ks
unfolding join_lf
join_lf-empty ks l ls e = rw e refl

pub join_lf-split_lf : (xs : List ℕ) → join_lf (split_lf xs) ≡ xs
unfolding split_lf
join_lf-split_lf [] = unfold join_lf in refl
join_lf-split_lf (x ∷ xs) = elim (Bool-cases (x == lf)) [
  | inl b ↦
      let (l, ls, e) = split_lf-cons xs in
      rw b (join_lf-empty (split_lf xs) l ls e ∙ ground (arith, join_lf-split_lf xs))
  | inr b ↦ rw b (join_lf-on_head x (split_lf xs) ∙ ap (◌∷◌ x) (join_lf-split_lf xs))
]

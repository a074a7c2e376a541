-- ===== src/Httpx/Sse/Frames.antt =====
-- A frame is read back as the one event that it was written for.
use mathlib.Core.List.{append-nil}
use cofound.Prelude.{
  ℕ, ◌/◌, ◌≡◌, refl, ap, inl, inr, List, [], ◌∷◌, ◌++◌, ltb, Bool-cases, if◌then◌else◌,
}
use cofound.Errs.Code.{codes}
use cofound.Httpx.Sse.{
  lf, Event, sanitize_field, normalise, split_lf, format_int, line, data_lines, is_empty,
  field_line, retry_line, encode,
}
use cofound.Httpx.Sse.Lines.{unlines, unlines-append}

-- The lines of a frame.
unfoldable pub field_lines : List ℕ → List ℕ → List (List ℕ)
field_lines label value = if is_empty value then [] else (label ++ sanitize_field value) ∷ []

unfoldable pub retry_lines : ℕ → List (List ℕ)
retry_lines retry =
    if ltb 0 retry then (codes "retry: " ++ format_int (retry / 1000000)) ∷ [] else []

unfoldable pub labelled : List (List ℕ) → List (List ℕ)
labelled [] = []
labelled (l ∷ ls) = (codes "data: " ++ l) ∷ labelled ls

unfoldable pub frame : Event → List (List ℕ)
frame e =
    field_lines (codes "id: ") e.id
    ++ (field_lines (codes "event: ") e.name
        ++ (retry_lines e.retry ++ (labelled (split_lf (normalise e.body)) ++ [] ∷ [])))

unlines-labelled : (ls : List (List ℕ)) → unlines (labelled ls) ≡ data_lines ls
unfolding unlines labelled data_lines
unlines-labelled [] = refl
unlines-labelled (l ∷ ls) = ap (λ x. line (codes "data: " ++ l) ++ x) (unlines-labelled ls)

unlines-field_lines :
    (label value : List ℕ) → unlines (field_lines label value) ≡ field_line label value
unfolding unlines field_lines field_line
unlines-field_lines label [] = refl
unlines-field_lines label (c ∷ cs) = append-nil _

unlines-retry_lines : (n : ℕ) → unlines (retry_lines n) ≡ retry_line n
unfolding unlines retry_lines retry_line
unlines-retry_lines n = elim (Bool-cases (ltb 0 n)) [
  | inl b ↦ rw b (append-nil _)
  | inr b ↦ rw b refl
]

data_part :
    (b : List ℕ)
    → (if is_empty b then line (codes "data: ") else data_lines (split_lf b))
      ≡ data_lines (split_lf b)
unfolding data_lines split_lf
data_part [] = refl
data_part (c ∷ cs) = refl

unlines-frame :
    (e : Event)
    → unlines (frame e)
      ≡ field_line (codes "id: ") e.id
        ++ (field_line (codes "event: ") e.name
            ++ (retry_line e.retry ++ (data_lines (split_lf (normalise e.body)) ++ lf ∷ [])))
unfolding frame
unlines-frame e =
    simp (unlines-append, unlines-field_lines, unlines-retry_lines, unlines-labelled)
      (unfold unlines in refl)

pub encode-frame : (e : Event) → encode e ≡ unlines (frame e)
unfolding encode
encode-frame e = rw (unlines-frame e, data_part (normalise e.body)) refl

-- ===== src/Httpx/Sse/Relayed.antt =====
-- What a client receives of a stream, in the terms of the code that wrote it.
use mathlib.Core.List.{append_assoc, append-nil}
use cofound.Prelude.{
  ℕ, ◌/◌, ◌≡◌, refl, sym, ap, ◌∙◌, inl, inr, true, List, [], ◌∷◌, ◌++◌, arith, ltb, Bool-cases,
  if◌then◌else◌,
}
use cofound.Errs.Code.{codes}
use cofound.Httpx.Sse.{
  Event, sanitize_field, normalise, split_lf, format_int, is_empty, encode, comment, Write, sends,
  comments, written,
}
use cofound.Httpx.Sse.Client.{
  lines, take_line, field_name, field_value, drop_space, same, has_nul, Buffer, Message, join_lf,
  cleared, dispatched, read,
}
use cofound.Httpx.Sse.Decimal.{decimal_from-format_int, all_chars-format_int, format_int-not_empty}
use cofound.Httpx.Sse.Lines.{
  clean, all_clean, unlines, lines-unlines, clean-sanitize_field, clean-digits, clean-labelled,
  all_clean-append, no_cr-normalise, all_clean-split_lf, join_lf-split_lf, split_lf-cons,
}
use cofound.Httpx.Sse.Frames.{field_lines, retry_lines, labelled, frame, encode-frame}

-- The last event id that a client has after an event's id field.
unfoldable pub relayed_id : List ℕ → List ℕ → List ℕ
relayed_id last id =
    if is_empty id then last else if has_nul (sanitize_field id) then last else sanitize_field id

-- Between two events.
abbrev pub idle : List ℕ → ℕ → Buffer
idle last retry = record { name = []; body = []; last_id = last; retry = retry }

abbrev pub relayed_message : List ℕ → Event → Message
relayed_message last e = record {
  name = sanitize_field e.name;
  body = normalise e.body;
  last_id = relayed_id last e.id;
}

abbrev pub heard_retry : ℕ → Event → ℕ
heard_retry retry e = if ltb 0 e.retry then e.retry / 1000000 else retry

-- What was sent, as a client should see it: one message for each event, none for a comment.
unfoldable pub relayed : List Write → List ℕ → ℕ → List Message × Buffer
relayed [] last retry = ([], idle last retry)
relayed (sends e ∷ ws) last retry =
    let (ms, end) = relayed ws (relayed_id last e.id) (heard_retry retry e) in
    (relayed_message last e ∷ ms, end)
relayed (comments t ∷ ws) last retry = relayed ws last retry

read-id :
    (v : List ℕ) (ls : List (List ℕ)) (b : Buffer)
    → read (field_lines (codes "id: ") v ++ ls) b
      ≡ read ls (record b { last_id = relayed_id b.last_id v })
unfolding read field_lines take_line field_name field_value drop_space same relayed_id
read-id [] ls b = refl
read-id (c ∷ v) ls b = ground arith

read-name :
    (v : List ℕ) (ls : List (List ℕ)) (last : List ℕ) (retry : ℕ)
    → read (field_lines (codes "event: ") v ++ ls) (idle last retry)
      ≡ read ls (record { name = sanitize_field v; body = []; last_id = last; retry = retry })
unfolding read field_lines take_line field_name field_value drop_space same sanitize_field
read-name [] ls last retry = refl
read-name (c ∷ v) ls last retry = refl

read-retry :
    (n : ℕ) (ls : List (List ℕ)) (b : Buffer)
    → read (retry_lines n ++ ls) b
      ≡ read ls (record b { retry = if ltb 0 n then n / 1000000 else b.retry })
unfolding read retry_lines take_line field_name field_value drop_space same
read-retry n ls b = elim (Bool-cases (ltb 0 n)) [
  | inr z ↦ rw z refl
  | inl z ↦
      rw
        (
          z,
          format_int-not_empty (n / 1000000),
          all_chars-format_int (n / 1000000),
          decimal_from-format_int (n / 1000000),
        )
        refl
]

read-labelled :
    (ks ls : List (List ℕ)) (b : Buffer)
    → read (labelled ks ++ ls) b ≡ read ls (record b { body = b.body ++ ks })
unfolding read labelled take_line field_name field_value drop_space same
read-labelled [] ls b = ground (arith, append-nil b.body)
read-labelled (k ∷ ks) ls b =
    read-labelled ks ls (record b { body = b.body ++ k ∷ [] })
    ∙ ap (λ x. read ls (record b { body = x })) (append_assoc b.body (k ∷ []) ks)

-- The end of a frame.
read-end :
    (n xs : List ℕ) (ls : List (List ℕ)) (last : List ℕ) (retry : ℕ)
    → read ([] ∷ ls) (record { name = n; body = split_lf xs; last_id = last; retry = retry }) ≡ (
      record { name = n; body = xs; last_id = last } ∷ (read ls (idle last retry)).0,
      (read ls (idle last retry)).1,
    )
unfolding read dispatched cleared
read-end n xs ls last retry =
    let (k, ks, e) = split_lf-cons xs in
    rw e (
      ap
        (λ x. (
          record { name = n; body = x; last_id = last } ∷ (read ls (idle last retry)).0,
          (read ls (idle last retry)).1,
        ))
        (ap join_lf (sym e) ∙ join_lf-split_lf xs))

read-frame :
    (e : Event) (ls : List (List ℕ)) (last : List ℕ) (retry : ℕ)
    → read (frame e ++ ls) (idle last retry) ≡ (
      relayed_message last e ∷ (read ls (idle (relayed_id last e.id) (heard_retry retry e))).0,
      (read ls (idle (relayed_id last e.id) (heard_retry retry e))).1,
    )
unfolding frame
read-frame e ls last retry =
    simp (append_assoc, read-id, read-name, read-retry, read-labelled)
      (read-end (sanitize_field e.name) (normalise e.body) ls (relayed_id last e.id)
        (heard_retry retry e))

clean_label :
    (clean (codes "id: ") ≡ true)
    × (clean (codes "event: ") ≡ true)
    × (clean (codes "retry: ") ≡ true)
    × (clean (codes "data: ") ≡ true)
unfolding clean
clean_label = (refl, refl, refl, refl)

all_clean-field_lines :
    (label v : List ℕ) → clean label ≡ true → all_clean (field_lines label v) ≡ true
unfolding field_lines all_clean
all_clean-field_lines label [] h = refl
all_clean-field_lines label (c ∷ v) h =
    ground (arith, clean-labelled label (sanitize_field (c ∷ v)) h (clean-sanitize_field (c ∷ v)))

all_clean-retry_lines : (n : ℕ) → all_clean (retry_lines n) ≡ true
unfolding all_clean retry_lines
all_clean-retry_lines n = elim (Bool-cases (ltb 0 n)) [
  | inr z ↦ rw z refl
  | inl z ↦ rw z (
      rw
        (clean-labelled (codes "retry: ") (format_int (n / 1000000)) clean_label.2
          (clean-digits (format_int (n / 1000000)) (all_chars-format_int (n / 1000000))))
        refl)
]

all_clean-labelled : (ks : List (List ℕ)) → all_clean ks ≡ true → all_clean (labelled ks) ≡ true
unfolding labelled all_clean
all_clean-labelled [] h = refl
all_clean-labelled (k ∷ ks) h =
    ground (arith, all_clean-labelled ks, clean-labelled (codes "data: ") k clean_label.3)

all_clean-frame : (e : Event) → all_clean (frame e) ≡ true
unfolding frame
all_clean-frame e =
    all_clean-append (field_lines (codes "id: ") e.id) _
      (all_clean-field_lines (codes "id: ") e.id clean_label.0)
      (all_clean-append (field_lines (codes "event: ") e.name) _
        (all_clean-field_lines (codes "event: ") e.name clean_label.1)
        (all_clean-append (retry_lines e.retry) _ (all_clean-retry_lines e.retry) (
          all_clean-append (labelled (split_lf (normalise e.body))) ([] ∷ [])
            (all_clean-labelled (split_lf (normalise e.body))
              (all_clean-split_lf (normalise e.body) (no_cr-normalise e.body)))
            (unfold all_clean clean in refl))))

lines-encode : (e : Event) (rest : List ℕ) → lines (encode e ++ rest) ≡ frame e ++ lines rest
lines-encode e rest = rw (encode-frame e) (lines-unlines (frame e) rest (all_clean-frame e))

comment-unlines : (t : List ℕ) → comment t ≡ unlines ((codes ": " ++ sanitize_field t) ∷ [] ∷ [])
unfolding comment unlines
comment-unlines t = simp append_assoc

lines-comment :
    (t rest : List ℕ)
    → lines (comment t ++ rest) ≡ (codes ": " ++ sanitize_field t) ∷ [] ∷ lines rest
lines-comment t rest = rw (comment-unlines t) (
    lines-unlines ((codes ": " ++ sanitize_field t) ∷ [] ∷ []) rest
      (unfold all_clean clean in rw (clean-sanitize_field t) refl))

read-comment :
    (v : List ℕ) (ls : List (List ℕ)) (last : List ℕ) (retry : ℕ)
    → read ((codes ": " ++ v) ∷ [] ∷ ls) (idle last retry) ≡ read ls (idle last retry)
unfolding read take_line field_name field_value same cleared dispatched
read-comment v ls last retry = refl

pub read-relayed :
    (ws : List Write) (last : List ℕ) (retry : ℕ)
    → read (lines (written ws)) (idle last retry) ≡ relayed ws last retry
unfolding written relayed
read-relayed [] last retry = unfold lines read in refl
read-relayed (sends e ∷ ws) last retry =
    rw
      (
        lines-encode e (written ws),
        read-frame e (lines (written ws)) last retry,
        read-relayed ws (relayed_id last e.id) (heard_retry retry e),
      )
      refl
read-relayed (comments t ∷ ws) last retry =
    rw
      (
        lines-comment t (written ws),
        read-comment (sanitize_field t) (lines (written ws)) last retry,
      )
      (read-relayed ws last retry)

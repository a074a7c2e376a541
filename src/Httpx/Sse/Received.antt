-- ===== src/Httpx/Sse/Received.antt =====
-- What a client receives of a stream is what was sent on it, described without the code's functions.
use cofound.Prelude.{
  ℕ, ◌≡◌, refl, ◌∙◌, Bool, true, false, ◌||◌, List, [], ◌∷◌, arith, ◌==◌, delete, if◌then◌else◌,
}
use cofound.Httpx.Sse.{
  lf, cr, Event, sanitize_field, fold_crlf, fold_cr, normalise, is_empty, Write, sends, comments,
  written,
}
use cofound.Httpx.Sse.Client.{lines, has_nul, Buffer, Message, read}
use cofound.Httpx.Sse.Relayed.{idle, heard_retry, relayed, relayed_id, read-relayed}

unfoldable pub is_break : ℕ → Bool
is_break c = c == cr || c == lf

-- A text with an LF for each of its line ends, which are LF, CR and CR LF; `skip` says that the byte
-- before was a CR.
unfoldable pub with_lf : Bool → List ℕ → List ℕ
with_lf skip [] = []
with_lf skip (c ∷ cs) =
    let ended = lf ∷ with_lf false cs in
    let after_cr = lf ∷ with_lf true cs in
    let ignored = with_lf false cs in
    let longer = c ∷ with_lf false cs in
    if c == lf then (if skip then ignored else ended) else if c == cr then after_cr else longer

-- The last event id that a client has after an event's id: one without bytes, or with a NUL, leaves
-- the id that it had.
unfoldable pub heard_id : List ℕ → List ℕ → List ℕ
unfolding is_break delete
heard_id last id =
    if is_empty id then last else if has_nul (delete is_break id) then last else delete is_break id

abbrev pub message : List ℕ → Event → Message
message last e = record {
  name = delete is_break e.name;
  body = with_lf false e.body;
  last_id = heard_id last e.id;
}

-- What was sent, as a client should see it: one message for each event, none for a comment.
unfoldable pub received : List Write → List ℕ → ℕ → List Message × Buffer
received [] last retry = ([], idle last retry)
received (sends e ∷ ws) last retry =
    let (ms, end) = received ws (heard_id last e.id) (heard_retry retry e) in
    (message last e ∷ ms, end)
received (comments t ∷ ws) last retry = received ws last retry

sanitize_field-delete : (xs : List ℕ) → sanitize_field xs ≡ delete is_break xs
unfolding sanitize_field is_break delete
sanitize_field-delete [] = refl
sanitize_field-delete (c ∷ cs) = ground (arith, sanitize_field-delete cs)

normalise-with_lf : (xs : List ℕ) → normalise xs ≡ with_lf false xs
unfolding normalise fold_crlf fold_cr with_lf
normalise-with_lf [] = refl
normalise-with_lf (c ∷ []) = ground arith
normalise-with_lf (c ∷ d ∷ cs) = ground (arith, normalise-with_lf (d ∷ cs))

relayed_id-heard_id : (last id : List ℕ) → relayed_id last id ≡ heard_id last id
unfolding relayed_id heard_id
relayed_id-heard_id last id = rw (sanitize_field-delete id) refl

relayed-received :
    (ws : List Write) (last : List ℕ) (retry : ℕ) → relayed ws last retry ≡ received ws last retry
unfolding relayed received
relayed-received [] last retry = refl
relayed-received (sends e ∷ ws) last retry =
    rw
      (
        relayed_id-heard_id last e.id,
        sanitize_field-delete e.name,
        normalise-with_lf e.body,
        relayed-received ws (heard_id last e.id) (heard_retry retry e),
      )
      refl
relayed-received (comments t ∷ ws) last retry = relayed-received ws last retry

-- Whatever is sent on a stream, with bytes of any kind in its ids, names, data and comments, a client
-- that reads it as the HTML standard says gets one message for each event and none besides: with the
-- event's name without its line breaks, its data with each line end, LF, CR or CR LF, read as one LF,
-- and as the last event id the event's id without its line breaks, or, if the id is empty or has
-- a NUL, the one before. The retry time that it ends with is that of the last event that has one.
pub read-written :
    (ws : List Write) (last : List ℕ) (retry : ℕ)
    → read (lines (written ws)) (idle last retry) ≡ received ws last retry
read-written ws last retry = read-relayed ws last retry ∙ relayed-received ws last retry

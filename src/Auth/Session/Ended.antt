-- ===== src/Auth/Session/Ended.antt =====
-- services/api/internal/auth/session.go: a session that is revoked by the token that it was read by.
use cofound.Prelude.{
  ℕ, ◌+◌, ◌≡◌, ◌≢◌, ◌⊎◌, refl, inl, inr, Bool, Option, none, some, List, [], ◌∷◌, ◌&&◌, ◌==◌,
  is_none, String, arith, find, update, In, In-update, Option-cases, Bool-cases, find-update,
  find-append, leb, ◌||◌, not, if◌then◌else◌, ap, sym, ◌∙◌, subst, ◌++◌,
}
use cofound.Auth.Token.{Token}
use cofound.Auth.Session.Store.{
  Session, Sessions, Row, Store, Refuses, ok, insert, checks, touch_session,
}
use cofound.Auth.Session.Ops.{
  Verified, successor, rotate, rotated_session, new_row, mark_rotated, touch, touched, judge,
  is_dead, by_token, verify,
}
use cofound.Auth.Session.Admin.{revoke_where, revoke, truncate}
use cofound.Auth.Session.Invariant.{In-snoc, insert-some}
use cofound.Auth.Session.Deadline.{successor_lem}
use cofound.Auth.Session.Keeps.{by_token-In}

-- No row stands twice, a row with a live successor is marked as rotated, and it has one only.
pub record IsUnforked (s : Store) : Type 0 where
  pub once : (q r : Row) → In q s.rows → In r s.rows → q.id ≡ r.id → q ≡ r
  pub marked :
      (q r : Row)
      → In q s.rows
      → In r s.rows
      → q.rotated_from ≡ some r.id
      → q.revoked_at ≡ none
      → r.rotated_at ≢ none
  pub single :
      (q r : Row) (i : ℕ)
      → In q s.rows
      → In r s.rows
      → q.rotated_from ≡ some i
      → r.rotated_from ≡ some i
      → q.revoked_at ≡ none
      → r.revoked_at ≡ none
      → q.id ≡ r.id

-- The row of a token is revoked, or it is rotated and has no live successor.
abbrev pub IsOver : List Row → Row → Type 0
IsOver rows r =
    (r.revoked_at ≢ none)
    ⊎ ((r.rotated_at ≢ none)
        × ((q : Row) → In q rows → q.rotated_from ≡ some r.id → q.revoked_at ≢ none))

abbrev pub Ended : Sessions → Store → Token → Type 0
Ended c t token = (r : Row) → by_token c token t.rows ≡ some r → IsOver t.rows r

module _ (c : Sessions) where
  judge-IsOver :
      (bad : Refuses) (fresh : Option Token) (t : Store) (r : Row) (now : ℕ) (v : Verified)
      → IsOver t.rows r
      → (judge c bad fresh t r now).1 ≢ ok v
  unfolding judge is_dead
  judge-IsOver bad fresh t r now v (inl dead) e = elim (Option-cases r.revoked_at) [
    | inl n ↦ dead n
    | inr (at, f) ↦ absurd (ground arith)
  ]
  judge-IsOver bad fresh t r now v (inr (turned, none_live)) e = elim (Option-cases r.rotated_at) [
    | inl n ↦ turned n
    | inr (at, f) ↦
        let found : successor bad t r.id ≡ ok v = ground arith in
        let (q, iq, is, from, live) = successor_lem bad t r.id v found in none_live q iq from live
  ]

  -- Verify refuses a token whose row is over.
  pub verify-Ended :
      (bad : Refuses) (fresh : Option Token) (t : Store) (token : Token) (now : ℕ) (v : Verified)
      → Ended c t token
      → (verify c bad fresh t token now).1 ≢ ok v
  unfolding verify
  verify-Ended bad fresh t token now v over e = elim (Option-cases (by_token c token t.rows)) [
    | inl n ↦ absurd (ground arith)
    | inr (r, f) ↦ judge-IsOver bad fresh t r now v (over r f) (ground arith)
  ]

  by_token-update :
      (p : Row → Bool) (f : Row → Row) (token : Token) (rows : List Row) (r : Row)
      → ((x : Row) → (f x).token_hash ≡ x.token_hash)
      → by_token c token (update p f rows) ≡ some r
      → (x : Row) × (by_token c token rows ≡ some x) × (r ≡ (if p x then f x else x))
  unfolding by_token find update
  by_token-update p f token [] r same e = absurd (ground arith)
  by_token-update p f token (x ∷ xs) r same e = elim (Bool-cases (x.token_hash == c.hash token)) [
    | inl b ↦ (x, ground arith, ground (arith, same x))
    | inr b ↦
        let (y, g, is) = by_token-update p f token xs r same (ground (arith, same x)) in
        (y, ground arith, is)
  ]

-- Whether Revoke changes a row, and what it makes of it.
abbrev hit : ℕ → Row → Bool
hit i r = r.id == i && is_none r.revoked_at

abbrev struck : ℕ → String → Row → Row
struck now why r = record r { revoked_at = some now; revoked_reason = some why }

-- A row of the table after Revoke.
abbrev Struck : ℕ → Row → Row → Type 0
Struck i x r =
    (r.id ≡ x.id)
    × (r.rotated_at ≡ x.rotated_at)
    × (r.rotated_from ≡ x.rotated_from)
    × (r.revoked_at ≡ none → (x.revoked_at ≡ none) × (x.id ≢ i))

struck-Struck :
    (i now : ℕ) (why : String) (x r : Row)
    → r ≡ (if hit i x then struck now why x else x)
    → Struck i x r
struck-Struck i now why x r e =
    (ground (arith), ground (arith), ground (arith), λ n. (ground (arith), λ m. ground (arith)))

In-Struck :
    (i now : ℕ) (why : String) (r : Row) (rows : List Row)
    → In r (revoke_where (λ q. q.id == i) now why rows)
    → (x : Row) × In x rows × Struck i x r
unfolding revoke_where
In-Struck i now why r rows h =
    let (x, ix, e) = In-update (hit i) (struck now why) r rows h in
    (x, ix, struck-Struck i now why x r e)

module _ (c : Sessions) where
  by_token-Struck :
      (i now : ℕ) (why : String) (token : Token) (r : Row) (rows : List Row)
      → by_token c token (revoke_where (λ q. q.id == i) now why rows) ≡ some r
      → (x : Row) × (by_token c token rows ≡ some x) × Struck i x r
  unfolding revoke_where
  by_token-Struck i now why token r rows h =
      let (x, f, e) = by_token-update c (hit i) (struck now why) token rows r (λ z. refl) h in
      (x, f, struck-Struck i now why x r e)

  -- Revoking the row of the token itself.
  over_itself :
      (s : Store) (token : Token) (i now : ℕ) (why : String)
      → ((y : Row) → by_token c token s.rows ≡ some y → y.id ≡ i)
      → Ended c (record s { rows = revoke_where (λ (q : Row). q.id == i) now why s.rows }) token
  over_itself s token i now why own x e =
      let (y, g, (same, turned, from, live)) = by_token-Struck i now why token x s.rows e in
      inl (λ n. (live n).1 (own y g))

  module _ (s : Store) (token : Token) (r : Row) (f : by_token c token s.rows ≡ some r) where
    -- Revoking the only live successor of the row.
    over_successor :
        (i now : ℕ) (why : String)
        → r.rotated_at ≢ none
        → ((q : Row) → In q s.rows → q.rotated_from ≡ some r.id → q.revoked_at ≡ none → q.id ≡ i)
        → Ended c (record s { rows = revoke_where (λ (q : Row). q.id == i) now why s.rows }) token
    over_successor i now why turned only x e =
        let (y, g, (own, spun, from, live)) = by_token-Struck i now why token x s.rows e in
        let same : y ≡ r = cc in
        inr (
          λ n. turned (ap (λ (z : Row). z.rotated_at) (sym same) ∙ sym spun ∙ n),
          λ q iq chained alive.
              let (z, iz, (zid, zspun, zfrom, zlive)) = In-Struck i now why q s.rows iq in
              let here : z.rotated_from ≡ some r.id = ground (arith) in
              (zlive alive).1 (only z iz here (zlive alive).0),
        )

-- What a rotation that succeeds has done.
abbrev pub Rotated : Sessions → Store → Session → ℕ → Verified → Store → Type 0
Rotated c s old now v t =
    (row : Row) × (t.rows ≡ mark_rotated old.id now (s.rows ++ row ∷ []))
    × (row.id ≡ s.next_id)
    × (row.rotated_from ≡ some old.id)
    × (v.0.id ≡ s.next_id)

module _ (c : Sessions) (bad : Refuses) where
  pub rotate-ok :
      (fresh : Option Token) (s : Store) (old : Session) (now : ℕ) (v : Verified)
      → (rotate c bad fresh s old now).1 ≡ ok v
      → Rotated c s old now v (rotate c bad fresh s old now).0
  unfolding rotate new_row rotated_session
  rotate-ok none s old now v e = absurd (ground arith)
  rotate-ok (some token) s old now v e =
      let row = λ (i : ℕ). new_row c (rotated_session c old now i) token (some old.id) in
      elim (Option-cases (insert s row)) [
        | inl n ↦ absurd (ground arith)
        | inr (t, f) ↦
            let (is, valid) = insert-some s t row f in
            (row s.next_id, ground (arith), refl, refl, ground (arith))
      ]

  touch-ok :
      (s : Store) (r : Session) (now : ℕ) (v : Verified)
      → (touch c bad s r now).1 ≡ ok v
      → v.0.id ≡ r.id
  unfolding touch touched
  touch-ok s r now v e = ground arith

  -- A row of the table after a rotation.
  In-rotated :
      (s : Store) (r row q : Row) (now : ℕ)
      → In q (mark_rotated r.id now (s.rows ++ row ∷ []))
      → (z : Row) × (In z s.rows ⊎ (z ≡ row))
        × (q.id ≡ z.id)
        × (q.rotated_from ≡ z.rotated_from)
        × (q.revoked_at ≡ z.revoked_at)
  unfolding mark_rotated
  In-rotated s r row q now h =
      let (z, iz, e) =
        In-update (λ (x : Row). x.id == r.id) (λ (x : Row). record x { rotated_at = some now }) q
          (s.rows ++ row ∷ []) h in
      (z, In-snoc z row s.rows iz, ground (arith), ground (arith), ground (arith))

  by_token-rotated :
      (s : Store) (token : Token) (r row : Row) (now : ℕ)
      → by_token c token s.rows ≡ some r
      → by_token c token (mark_rotated r.id now (s.rows ++ row ∷ []))
        ≡ some (record r { rotated_at = some now })
  unfolding by_token mark_rotated
  by_token-rotated s token r row now f =
      let p = λ (q : Row). q.token_hash == c.hash token in
      let later : find p (s.rows ++ row ∷ []) ≡ some r =
        rw (find-append p s.rows (row ∷ []), f) refl in
      ground (
        arith,
        later,
        find-update p (λ (x : Row). x.id == r.id) (λ (x : Row). record x { rotated_at = some now })
            (s.rows ++ row ∷ []) (λ x. refl),
      )

  -- Rotated by the call that read the session, and then revoked.
  over-Rotated :
      (s t : Store) (token : Token) (r : Row) (now : ℕ) (why : String) (v : Verified)
      → IsUnforked s
      → by_token c token s.rows ≡ some r
      → r.rotated_at ≡ none
      → Rotated c s r.session now v t
      → Ended c
          (record t { rows = revoke_where (λ (q : Row). q.id == v.0.id) now why t.rows })
          token
  over-Rotated s t token r now why v inv f fresh (row, rows, own, from, is) =
      over_successor c t token (record r { rotated_at = some now })
        (rw rows (by_token-rotated s token r row now f)) v.0.id now why (λ n. cc)
        λ q iq chained live.
          let (z, side, zid, zfrom, zlive) =
            In-rotated s r row q now (subst (λ (rs : List Row). In q rs) rows iq) in
          elim side [
            | inr new ↦ zid ∙ ap (λ (x : Row). x.id) new ∙ own ∙ sym is
            | inl iz ↦ absurd (
                inv.marked z r iz (by_token-In c bad s token r f) (sym zfrom ∙ chained)
                  (sym zlive ∙ live) fresh)
          ]

  touch-rows :
      (s : Store) (token : Token) (r y : Row) (now : ℕ)
      → by_token c token s.rows ≡ some r
      → by_token c token (touch c bad s r.session now).0.rows ≡ some y
      → y.id ≡ r.id
  unfolding touch
  touch-rows s token r y now f e =
      elim (Bool-cases (bad touch_session || not (checks (touched c r.session now)))) [
        | inl b ↦ ground arith
        | inr b ↦
            let (x, g, is) =
              by_token-update c (λ (q : Row). q.id == r.id)
                (λ (q : Row). record q {
                  session = record q.session {
                    last_seen_at = now;
                    expires_at = (touched c r.session now).expires_at;
                  };
                })
                token s.rows y (λ z. refl) (rw b at e) in
            ground arith
      ]

  -- The table when the session that a row lets in is revoked.
  abbrev struck_out : ℕ → String → Verified → Store → Store
  struck_out now why v t = record t {
    rows = revoke_where (λ (q : Row). q.id == v.0.id) now why t.rows;
  }

  judge-Ended :
      (fresh : Option Token) (s : Store) (token : Token) (r : Row) (now : ℕ) (why : String)
      (v : Verified)
      → IsUnforked s
      → by_token c token s.rows ≡ some r
      → (judge c bad fresh s r now).1 ≡ ok v
      → Ended c (struck_out now why v (judge c bad fresh s r now).0) token
  unfolding judge
  judge-Ended fresh s token r now why v inv f e = elim (Bool-cases (is_dead c r now)) [
    | inl dead ↦ absurd (ground arith)
    | inr alive ↦ elim (Option-cases r.rotated_at) [
      | inr (at, turned) ↦
          let found : successor bad s r.id ≡ ok v = ground arith in
          let (q, iq, is, from, live) = successor_lem bad s r.id v found in
          let stays : (judge c bad fresh s r now).0 ≡ s = ground arith in
          rw stays (
            over_successor c s token r f v.0.id now why (λ n. cc)
              λ z iz chained lives.
                inv.single z q r.id iz iq chained from lives live
                ∙ sym (ap (λ (x : Session). x.id) is))
      | inl fresh_row ↦ elim (Bool-cases (leb (r.issued_at + c.rotate_after) now)) [
        | inl b ↦
            let turns : judge c bad fresh s r now ≡ rotate c bad fresh s r.session now =
              ground arith in
            rw turns (
              over-Rotated s (rotate c bad fresh s r.session now).0 token r now why v inv f
                fresh_row (rotate-ok fresh s r.session now v (rw turns at e)))
        | inr b ↦
            let stays : judge c bad fresh s r now ≡ touch c bad s r.session now = ground arith in
            rw stays (
              over_itself c (touch c bad s r.session now).0 token v.0.id now why λ y g.
                touch-rows s token r y now f g ∙ sym (touch-ok s r.session now v (rw stays at e)))
      ]
    ]
  ]

  revoke-ok :
      (t : Store) (v : Verified) (why : String) (now : ℕ) (u : Unit {0})
      → (revoke bad t v.0.id why now).1 ≡ ok u
      → (revoke bad t v.0.id why now).0 ≡ struck_out now (truncate why 200) v t
  unfolding revoke
  revoke-ok t v why now u e = ground arith

  -- Revoking the session that Verify has just given ends the token that it was given for.
  pub revoke-verify :
      (fresh : Option Token) (s : Store) (token : Token) (now : ℕ) (why : String) (v : Verified)
      (u : Unit {0})
      → IsUnforked s
      → (verify c bad fresh s token now).1 ≡ ok v
      → (revoke bad (verify c bad fresh s token now).0 v.0.id why now).1 ≡ ok u
      → Ended c (revoke bad (verify c bad fresh s token now).0 v.0.id why now).0 token
  unfolding verify
  revoke-verify fresh s token now why v u inv e h = elim (Option-cases (by_token c token s.rows)) [
    | inl n ↦ absurd (ground arith)
    | inr (r, f) ↦
        let goes : verify c bad fresh s token now ≡ judge c bad fresh s r now = ground arith in
        rw (revoke-ok (verify c bad fresh s token now).0 v why now u h)
          (rw goes (judge-Ended fresh s token r now (truncate why 200) v inv f (rw goes at e)))
  ]

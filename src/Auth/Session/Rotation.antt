-- ===== src/Auth/Session/Rotation.antt =====
-- What a rotation leaves behind: the grace window, and one successor for each rotation.
use cofound.Prelude.{
  ℕ, ◌+◌, ◌≤◌, ◌<◌, ◌≡◌, refl, ap, inl, inr, true, false, not, Option, some, List, [], ◌∷◌, ◌++◌,
  arith, find-update, find-append, delete-update, delete-append, count, count-append, count-update,
  ◌==◌, on_row, Option-cases,
}
use cofound.Auth.Token.{Token, is_zero, zero_token}
use cofound.Auth.Session.Store.{
  Session, Sessions, Row, Store, Refuses, ok, err, no_session, insert, select_session,
  find_successor,
}
use cofound.Auth.Session.Ops.{
  Verified, new_row, rotate, rotated_session, mark_rotated, latest, select, succeeds, successor,
  judge, is_dead, by_token, verify,
}
use cofound.Auth.Session.Invariant.{IsLinked, insert-some}
use cofound.Auth.Session.Keeps.{by_token-In}

module _ (c : Sessions) (bad : Refuses) (token : Token) (s : Store) (old : Session) (now : ℕ) where
  -- The row of the replacement.
  abbrev pub fresh_row : Row
  fresh_row = new_row c (rotated_session c old now s.next_id) token (some old.id)

  -- What a rotation that succeeds did.
  pub rotate-ok :
      (v : Verified)
      → (rotate c bad (some token) s old now).1 ≡ ok v
      → ((rotate c bad (some token) s old now).0.rows
          ≡ mark_rotated old.id now (s.rows ++ fresh_row ∷ []))
        × (v ≡ (rotated_session c old now s.next_id, token))
  unfolding rotate
  rotate-ok v e =
      elim (Option-cases
        (insert s (λ i. new_row c (rotated_session c old now i) token (some old.id)))) [
          | inl n ↦ absurd (ground arith)
          | inr (t, f) ↦ ground (
            arith,
            insert-some s t (λ (i : ℕ). new_row c (rotated_session c old now i) token (some old.id))
                f,
          )
        ]

  fresh-succeeds : succeeds old.id fresh_row ≡ true
  unfolding succeeds new_row
  fresh-succeeds = ground arith

  count-marked :
      (rows : List Row)
      → count (succeeds old.id) (mark_rotated old.id now rows) ≡ count (succeeds old.id) rows
  unfolding mark_rotated succeeds
  count-marked rows =
      count-update (succeeds old.id) (λ r. r.id == old.id) (λ r. record r { rotated_at = some now })
        rows (λ x. refl)

  -- Every rotation that succeeds adds one live successor of the session, also when the session has
  -- been rotated before: rotate never looks at `rotated_at`.
  pub count-rotate :
      (v : Verified)
      → (rotate c bad (some token) s old now).1 ≡ ok v
      → count (succeeds old.id) (rotate c bad (some token) s old now).0.rows
        ≡ count (succeeds old.id) s.rows + 1
  count-rotate v e =
      rw ((rotate-ok v e).0, count-marked, count-append) (unfold count in rw fresh-succeeds)

module _ (c : Sessions) (bad read : Refuses) (token presented : Token) (s : Store) (r : Row)
    (now : ℕ) (v : Verified) (inv : IsLinked s) (found : by_token c presented s.rows ≡ some r)
    (first : select (succeeds r.id) s.rows ≡ [])
    (rotated : (rotate c bad (some token) s r.session now).1 ≡ ok v) where
  abbrev pub rotated_store : Store
  rotated_store = (rotate c bad (some token) s r.session now).0

  abbrev added_row : Row
  added_row = fresh_row c bad token s r.session now

  abbrev mark : Row → Row
  mark = on_row (λ q. q.id == r.id) (λ q. record q { rotated_at = some now })

  -- The old token still finds its row, now marked.
  by_token-rotated :
      by_token c presented rotated_store.rows ≡ some (record r { rotated_at = some now })
  unfolding by_token mark_rotated
  by_token-rotated = rw (rotate-ok c bad token s r.session now v rotated).0 (
      rw
        (
          find-update (λ (q : Row). q.token_hash == c.hash presented) (λ q. q.id == r.id)
              (λ q. record q { rotated_at = some now }) (s.rows ++ added_row ∷ []) (λ x. refl),
          find-append (λ (q : Row). q.token_hash == c.hash presented) s.rows (added_row ∷ []),
          found,
        )
        (ground arith))

  added-unmarked : mark added_row ≡ added_row
  unfolding new_row rotated_session
  added-unmarked = ground (arith, inv.fresh r (by_token-In c bad s presented r found))

  -- Its one successor is the new row.
  select-rotated : select (succeeds r.id) rotated_store.rows ≡ added_row ∷ []
  unfolding select mark_rotated
  select-rotated = rw (rotate-ok c bad token s r.session now v rotated).0 (
      rw
        (
          delete-update (λ q. not (succeeds r.id q)) (λ q. q.id == r.id)
              (λ q. record q { rotated_at = some now }) (s.rows ++ added_row ∷ [])
              (unfold succeeds in λ x. refl),
          delete-append (λ q. not (succeeds r.id q)) s.rows (added_row ∷ []),
          first,
        )
        (rw (fresh-succeeds c bad token s r.session now) (ap (λ x. x ∷ []) added-unmarked)))

  successor-rotated :
      read find_successor ≡ false → successor read rotated_store r.id ≡ ok (v.0, zero_token)
  unfolding successor latest new_row
  successor-rotated k =
      rw (k, successor, select-rotated)
        (ground (arith, (rotate-ok c bad token s r.session now v rotated).1))

  -- After a token that had no successor has been rotated, the old token lets its holder in as the
  -- replacement until the grace window ends, as long as the old deadlines lie ahead and no read fails, on
  -- the table that the rotation leaves; it hands out no
  -- third token and changes nothing.
  pub verify-in_grace :
      (fresh : Option Token) (later : ℕ)
      → is_zero presented ≡ false
      → read select_session ≡ false
      → read find_successor ≡ false
      → is_dead c r later ≡ false
      → later ≤ now + c.rotate_grace
      → verify c read fresh rotated_store presented later ≡ (rotated_store, ok (v.0, zero_token))
  unfolding verify judge is_dead
  verify-in_grace fresh later z k n alive inside =
      ground (arith, by_token-rotated, successor-rotated n)

  -- After a token that had no successor has been rotated, it is refused past the grace window, and nothing changes.
  pub verify-past_grace :
      (fresh : Option Token) (later : ℕ)
      → read select_session ≡ false
      → now + c.rotate_grace < later
      → verify c read fresh rotated_store presented later ≡ (rotated_store, err no_session)
  unfolding verify judge is_dead
  verify-past_grace fresh later k past = ground (arith, by_token-rotated)

-- ===== src/Auth/Session/Revocation.antt =====
-- Signing out everywhere.
use mathlib.Core.Option
use cofound.Prelude.{
  ℕ, String, ◌≡◌, ◌≢◌, refl, true, false, ◌&&◌, Option, some, arith, update, find-update, count,
  is_none, ◌==◌, on_row,
}
use cofound.Auth.Token.{Token}
use cofound.Auth.Session.Store.{
  Sessions, Row, Store, Refuses, ok, err, no_session, revoke_all, select_session,
}
use cofound.Auth.Session.Ops.{judge, is_dead, by_token, verify}
use cofound.Auth.Session.Admin.{revoke_where, revoke_all_for_user, truncate}

module _ (c : Sessions) (bad : Refuses) (s : Store) (user now : ℕ) (why : String) where
  abbrev after : Store
  after = (revoke_all_for_user bad s user why now).0

  ended : Row → Row
  ended r = record r { revoked_at = some now; revoked_reason = some (truncate why 200) }

  rows-after :
      bad revoke_all ≡ false
      → after.rows ≡ update (λ r. r.user_id == user && is_none r.revoked_at) ended s.rows
  unfolding revoke_all_for_user revoke_where ended
  rows-after b = ground arith

  by_token-after :
      (token : Token)
      → bad revoke_all ≡ false
      → by_token c token after.rows
        ≡ Option.map
            (on_row (λ r. r.user_id == user && is_none r.revoked_at) ended)
            (by_token c token s.rows)
  unfolding by_token ended
  by_token-after token b = rw (rows-after b) (
      find-update (λ q. q.token_hash == c.hash token)
        (λ r. r.user_id == user && is_none r.revoked_at) ended s.rows (λ x. refl))

  -- A row of the user is dead afterwards, whenever it was revoked.
  dead_after :
      (r : Row) (later : ℕ)
      → r.user_id ≡ user
      → is_dead c (on_row (λ q. q.user_id == user && is_none q.revoked_at) ended r) later ≡ true
  unfolding is_dead ended
  dead_after r later e = ground arith

  -- Once RevokeAllForUser has run, Verify refuses every token of the user's sessions, at any time,
  -- rotated predecessors in their grace window included.
  pub verify-revoked :
      (read : Refuses) (fresh : Option Token) (token : Token) (r : Row) (later : ℕ)
      → bad revoke_all ≡ false
      → read select_session ≡ false
      → by_token c token s.rows ≡ some r
      → r.user_id ≡ user
      → verify c read fresh after token later ≡ (after, err no_session)
  unfolding verify judge
  verify-revoked read fresh token r later b k e own =
      ground (arith, by_token-after token b, dead_after r later own)

  -- RevokeAllForUser leaves the row of any other user's token as it was, and returns how many of the
  -- user's sessions it ended: those that no earlier call had revoked.
  pub revoke_all-others :
      (token : Token) (r : Row)
      → bad revoke_all ≡ false
      → by_token c token s.rows ≡ some r
      → r.user_id ≢ user
      → (by_token c token after.rows ≡ some r)
        × ((revoke_all_for_user bad s user why now).1
            ≡ ok (count (λ r. r.user_id == user && is_none r.revoked_at) s.rows))
  revoke_all-others token r b e other =
      (ground (arith, by_token-after token b), unfold revoke_all_for_user in ground arith)

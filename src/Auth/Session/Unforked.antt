-- ===== src/Auth/Session/Unforked.antt =====
-- services/api/internal/auth/session.go: no session is rotated into two, by calls that do not
-- overlap.
use cofound.Prelude.{
  ℕ, ◌+◌, ◌≡◌, ◌≢◌, ◌⊎◌, refl, inl, inr, Bool, true, Option, none, some, List, [], ◌∷◌, ◌++◌, ◌==◌,
  ◌||◌, not, is_none, String, arith, find, update, delete, In, In-update, In-delete, Option-cases,
  Bool-cases, if◌then◌else◌,
}
use cofound.Auth.Token.{Token}
use cofound.Auth.Session.Store.{
  Session, Sessions, Row, Store, Refuses, insert, touch_session, checks,
}
use cofound.Auth.Session.Ops.{
  issue, issued_session, new_row, mark_rotated, rotate, rotated_session, select, touch, touched,
  judge, by_token, verify,
}
use cofound.Auth.Session.Admin.{
  revoke_where, truncate, revoke, revoke_all_for_user, delete_over, unlink, is_over, LoginToken,
  sweep,
}
use cofound.Auth.Session.Invariant.{IsLinked, In-snoc, insert-some}
use cofound.Auth.Session.Keeps.{
  Step, Reach, here, next, issues, verifies, revokes, revokes_all, sweeps, by_token-In,
  Reach-IsLinked,
}
use cofound.Auth.Session.Ended.{IsUnforked}

-- An update that keeps ids, invents no predecessor, revives nothing and unmarks nothing.
abbrev Follows : Row → Row → Type 0
Follows y x =
    (y.id ≡ x.id)
    × ((y.rotated_from ≡ x.rotated_from) ⊎ (y.rotated_from ≡ none))
    × (y.revoked_at ≡ none → x.revoked_at ≡ none)
    × (x.rotated_at ≢ none → y.rotated_at ≢ none)

update-IsUnforked :
    (s : Store) (p : Row → Bool) (f : Row → Row)
    → IsUnforked s
    → ((x : Row) → Follows (f x) x)
    → IsUnforked (record s { rows = update p f s.rows })
update-IsUnforked s p f inv d = record {
  once = λ q r i j e.
      let (x, ix, m) = In-update p f q s.rows i in
      let (y, iy, n) = In-update p f r s.rows j in ground (arith, d x, d y, inv.once x y ix iy);
  marked = λ q r i j from live.
      let (x, ix, m) = In-update p f q s.rows i in
      let (y, iy, n) = In-update p f r s.rows j in ground (arith, d x, d y, inv.marked x y ix iy);
  single = λ q r k i j e g live alive.
      let (x, ix, m) = In-update p f q s.rows i in
      let (y, iy, n) = In-update p f r s.rows j in ground (arith, d x, d y, inv.single x y k ix iy);
}

delete-IsUnforked :
    (s : Store) (p : Row → Bool) → IsUnforked s → IsUnforked (record s { rows = delete p s.rows })
delete-IsUnforked s p inv = record {
  once = λ q r i j. inv.once q r (In-delete p q s.rows i).0 (In-delete p r s.rows j).0;
  marked = λ q r i j. inv.marked q r (In-delete p q s.rows i).0 (In-delete p r s.rows j).0;
  single = λ q r k i j. inv.single q r k (In-delete p q s.rows i).0 (In-delete p r s.rows j).0;
}

-- A row without a predecessor is added under the next id.
added-IsUnforked :
    (s : Store) (row : Row)
    → IsLinked s
    → IsUnforked s
    → row.id ≡ s.next_id
    → row.rotated_from ≡ none
    → IsUnforked (record { rows = s.rows ++ row ∷ []; next_id = s.next_id + 1 })
added-IsUnforked s row lin inv own from = record {
  once = λ q r i j e. ground (
    arith,
    In-snoc q row s.rows i,
    In-snoc r row s.rows j,
    inv.once q r,
    lin.fresh q,
    lin.fresh r,
  );
  marked = λ q r i j e live. ground (
    arith,
    In-snoc q row s.rows i,
    In-snoc r row s.rows j,
    inv.marked q r,
    lin.fresh_from q r.id,
  );
  single = λ q r k i j e g live alive.
      ground (arith, In-snoc q row s.rows i, In-snoc r row s.rows j, inv.single q r k);
}

module _ (s : Store) (o row : Row) (now : ℕ) where
  -- A row after a rotation, and the one that it was.
  abbrev turned : Row → Row
  turned x = if x.id == o.id then record x { rotated_at = some now } else x

  In-turned :
      (q : Row)
      → In q (mark_rotated o.id now (s.rows ++ row ∷ []))
      → (x : Row) × (In x s.rows ⊎ (x ≡ row)) × (q ≡ turned x)
  unfolding mark_rotated
  In-turned q h =
      let (x, ix, e) =
        In-update (λ (x : Row). x.id == o.id) (λ (x : Row). record x { rotated_at = some now }) q
          (s.rows ++ row ∷ []) h in
      (x, In-snoc x row s.rows ix, e)

  module _ (lin : IsLinked s) (inv : IsUnforked s) (io : In o s.rows)
      (unmarked : o.rotated_at ≡ none) (own : row.id ≡ s.next_id)
      (from : row.rotated_from ≡ some o.id) where
    -- Before it, the rotated row has no live successor.
    no_successor : (x : Row) → In x s.rows → x.rotated_from ≡ some o.id → x.revoked_at ≡ none → ⊥
    no_successor x ix e live = inv.marked x o ix io e live unmarked

    rotated-IsUnforked :
        IsUnforked
          (record { rows = mark_rotated o.id now (s.rows ++ row ∷ []); next_id = s.next_id + 1 })
    rotated-IsUnforked = record {
      once = λ q r i j e.
          let (x, ix, m) = In-turned q i in
          let (y, iy, n) = In-turned r j in ground (arith, inv.once x y, lin.fresh x, lin.fresh y);
      marked = λ q r i j e live.
          let (x, ix, m) = In-turned q i in
          let (y, iy, n) = In-turned r j in
          ground (arith, inv.marked x y, lin.fresh_from x y.id, lin.fresh o io);
      single = λ q r k i j e g live alive.
          let (x, ix, m) = In-turned q i in
          let (y, iy, n) = In-turned r j in
          ground (arith, inv.single x y k, no_successor x, no_successor y);
    }

module _ (c : Sessions) (bad : Refuses) where
  issue-IsUnforked :
      (fresh : Option Token) (s : Store) (user now : ℕ)
      → IsLinked s
      → IsUnforked s
      → IsUnforked (issue c bad fresh s user now).0
  unfolding issue new_row issued_session
  issue-IsUnforked none s user now lin inv = inv
  issue-IsUnforked (some token) s user now lin inv =
      let row = λ (i : ℕ). new_row c (issued_session c user now i) token none in
      elim (Option-cases (insert s row)) [
        | inl n ↦ ground arith
        | inr (t, e) ↦
            let (is, valid) = insert-some s t row e in
            ground (arith, added-IsUnforked s (row s.next_id) lin inv refl refl)
      ]

  revoke_where-IsUnforked :
      (s : Store) (p : Row → Bool) (now : ℕ) (why : String)
      → IsUnforked s
      → IsUnforked (record s { rows = revoke_where p now why s.rows })
  unfolding revoke_where
  revoke_where-IsUnforked s p now why inv =
      update-IsUnforked s _ _ inv (λ x. (refl, inl refl, λ n. absurd (ground arith), λ m. m))

  touch-IsUnforked :
      (s : Store) (r : Session) (now : ℕ) → IsUnforked s → IsUnforked (touch c bad s r now).0
  unfolding touch
  touch-IsUnforked s r now inv =
      elim (Bool-cases (bad touch_session || not (checks (touched c r now)))) [
        | inl e ↦ rw e inv
        | inr e ↦ rw e (update-IsUnforked s _ _ inv (λ x. (refl, inl refl, λ n. n, λ m. m)))
      ]

  rotate-IsUnforked :
      (fresh : Option Token) (s : Store) (o : Row) (now : ℕ)
      → IsLinked s
      → IsUnforked s
      → In o s.rows
      → o.rotated_at ≡ none
      → IsUnforked (rotate c bad fresh s o.session now).0
  unfolding rotate new_row rotated_session
  rotate-IsUnforked none s o now lin inv io un = inv
  rotate-IsUnforked (some token) s o now lin inv io un =
      let row = λ (i : ℕ). new_row c (rotated_session c o.session now i) token (some o.id) in
      elim (Option-cases (insert s row)) [
        | inl n ↦ ground arith
        | inr (t, e) ↦
            let (is, valid) = insert-some s t row e in
            ground (arith, rotated-IsUnforked s o (row s.next_id) now lin inv io un refl refl)
      ]

  judge-IsUnforked :
      (fresh : Option Token) (s : Store) (r : Row) (now : ℕ)
      → IsLinked s
      → IsUnforked s
      → In r s.rows
      → IsUnforked (judge c bad fresh s r now).0
  unfolding judge
  judge-IsUnforked fresh s r now lin inv ir =
      ground
        (arith, rotate-IsUnforked fresh s r now lin inv ir, touch-IsUnforked s r.session now inv)

  verify-IsUnforked :
      (fresh : Option Token) (s : Store) (token : Token) (now : ℕ)
      → IsLinked s
      → IsUnforked s
      → IsUnforked (verify c bad fresh s token now).0
  unfolding verify
  verify-IsUnforked fresh s token now lin inv = elim (Option-cases (by_token c token s.rows)) [
    | inl n ↦ ground arith
    | inr (r, e) ↦
        ground (arith, judge-IsUnforked fresh s r now lin inv (by_token-In c bad s token r e))
  ]

  revoke-IsUnforked :
      (s : Store) (i now : ℕ) (why : String) → IsUnforked s → IsUnforked (revoke bad s i why now).0
  unfolding revoke
  revoke-IsUnforked s i now why inv =
      ground (arith, revoke_where-IsUnforked s (λ (r : Row). r.id == i) now (truncate why 200) inv)

  revoke_all-IsUnforked :
      (s : Store) (user now : ℕ) (why : String)
      → IsUnforked s
      → IsUnforked (revoke_all_for_user bad s user why now).0
  unfolding revoke_all_for_user
  revoke_all-IsUnforked s user now why inv =
      ground (
        arith,
        revoke_where-IsUnforked s (λ (r : Row). r.user_id == user) now (truncate why 200) inv,
      )

  unlink-Follows : (gone : List Row) (x : Row) → Follows (unlink gone x) x
  unfolding unlink
  unlink-Follows gone x = elim (Option-cases x.rotated_from) [
    | inl n ↦ (ground (arith), ground (arith), λ m. ground (arith), λ m. ground (arith))
    | inr (i, e) ↦ elim (Bool-cases (is_none (find (λ q. q.id == i) gone))) [
      | inl b ↦ (ground (arith), ground (arith), λ m. ground (arith), λ m. ground (arith))
      | inr b ↦ (ground (arith), ground (arith), λ m. ground (arith), λ m. ground (arith))
    ]
  ]

  sweep-IsUnforked :
      (s : Store) (ts : List LoginToken) (now : ℕ)
      → IsUnforked s
      → IsUnforked (sweep bad s ts now).0
  unfolding sweep delete_over
  sweep-IsUnforked s ts now inv = ground (
    arith,
    update-IsUnforked (record s { rows = delete (is_over now) s.rows }) (λ (r : Row). true)
        (unlink (select (is_over now) s.rows)) (delete-IsUnforked s (is_over now) inv)
        (unlink-Follows (select (is_over now) s.rows)),
  )

Step-IsUnforked :
    (c : Sessions) {s t : Store} → Step c s t → IsLinked s → IsUnforked s → IsUnforked t
Step-IsUnforked c (issues bad fresh s user now) lin inv =
    issue-IsUnforked c bad fresh s user now lin inv
Step-IsUnforked c (verifies bad fresh s token now) lin inv =
    verify-IsUnforked c bad fresh s token now lin inv
Step-IsUnforked c (revokes bad s i why now) lin inv = revoke-IsUnforked c bad s i now why inv
Step-IsUnforked c (revokes_all bad s user why now) lin inv =
    revoke_all-IsUnforked c bad s user now why inv
Step-IsUnforked c (sweeps bad s ts now) lin inv = sweep-IsUnforked c bad s ts now inv

-- From an unforked and linked table, whatever calls of Issue, Verify, Revoke, RevokeAllForUser and
-- Sweep follow one another, none of them overlapping, and whichever statements fail: no row stands
-- twice, a row with a live successor is marked as rotated, and it has one live successor only.
pub Reach-IsUnforked :
    (c : Sessions) {s t : Store} → Reach c s t → IsLinked s → IsUnforked s → IsUnforked t
Reach-IsUnforked c here lin inv = inv
Reach-IsUnforked c (next r st) lin inv =
    Step-IsUnforked c st (Reach-IsLinked c r lin) (Reach-IsUnforked c r lin inv)

-- ===== src/Auth/Session/Keeps.antt =====
-- Every session operation keeps the invariant of user_sessions.
use cofound.Prelude.{
  ◌==◌, ◌||◌, not, ℕ, ◌≡◌, refl, inl, inr, Bool, true, Option, none, some, arith, In, In-find,
  In-update, In-delete, List, sym, subst, delete, String, Option-cases, Bool-cases,
}
use cofound.Auth.Token.{Token}
use cofound.Auth.Session.Store.{Sessions, Row, Store, Refuses, touch_session, checks, insert}
use cofound.Auth.Session.Ops.{
  issue, issued_session, new_row, mark_rotated, rotate, rotated_session, touch, touched, judge,
  by_token, verify, select,
}
use cofound.Auth.Session.Admin.{
  revoke_where, truncate, revoke, revoke_all_for_user, is_over, unlink, delete_over, LoginToken,
  sweep,
}
use cofound.Auth.Session.Invariant.{
  IsLinked, Derives, added-IsLinked, insert-some, derived-IsLinked, Continues, update-IsLinked,
}

mark_rotated-IsLinked :
    (s : Store) (i now : ℕ) → IsLinked s → IsLinked (record s { rows = mark_rotated i now s.rows })
unfolding mark_rotated
mark_rotated-IsLinked s i now inv =
    update-IsLinked s _ _ inv (λ x ix _. (refl, ((refl, refl), refl), inl refl, inv.within x ix))

revoke_where-IsLinked :
    (s : Store) (p : Row → Bool) (now : ℕ) (why : String)
    → IsLinked s
    → IsLinked (record s { rows = revoke_where p now why s.rows })
unfolding revoke_where
revoke_where-IsLinked s p now why inv =
    update-IsLinked s _ _ inv (λ x ix _. (refl, ((refl, refl), refl), inl refl, inv.within x ix))

module _ (c : Sessions) (bad : Refuses) where
  -- An insertion keeps the invariant, also when the database refuses it.
  after_insert-IsLinked :
      (s t : Store) (row : ℕ → Row)
      → IsLinked s
      → (row s.next_id).id ≡ s.next_id
      → Continues s (row s.next_id)
      → insert s row ≡ some t
      → IsLinked t
  after_insert-IsLinked s t row inv own from e =
      let (is, valid) = insert-some s t row e in
      rw is (added-IsLinked s (row s.next_id) inv own from valid)

  issue-IsLinked :
      (fresh : Option Token) (s : Store) (user now : ℕ)
      → IsLinked s
      → IsLinked (issue c bad fresh s user now).0
  unfolding issue new_row issued_session
  issue-IsLinked none s user now inv = inv
  issue-IsLinked (some token) s user now inv =
      let row = λ (i : ℕ). new_row c (issued_session c user now i) token none in
      elim (Option-cases (insert s row)) [
        | inl n ↦ ground arith
        | inr (t, e) ↦ ground (arith, after_insert-IsLinked s t row inv refl (inl refl) e)
      ]

  rotate-IsLinked :
      (fresh : Option Token) (s : Store) (o : Row) (now : ℕ)
      → IsLinked s
      → In o s.rows
      → IsLinked (rotate c bad fresh s o.session now).0
  unfolding rotate new_row rotated_session
  rotate-IsLinked none s o now inv io = inv
  rotate-IsLinked (some token) s o now inv io =
      let row = λ (i : ℕ). new_row c (rotated_session c o.session now i) token (some o.id) in
      elim (Option-cases (insert s row)) [
        | inl n ↦ ground arith
        | inr (t, e) ↦
            let grown =
              after_insert-IsLinked s t row inv refl (inr (o, io, refl, (refl, refl))) e in
            ground (arith, grown, mark_rotated-IsLinked t o.id now grown)
      ]

  touched-Derives :
      (s : Store) (r x : Row) (now deadline : ℕ)
      → IsLinked s
      → In r s.rows
      → In x s.rows
      → (x.id == r.id) ≡ true
      → checks (record r.session { last_seen_at = now; expires_at = deadline }) ≡ true
      → Derives
          (record x { session = record x.session { last_seen_at = now; expires_at = deadline } })
          x
  unfolding checks
  touched-Derives s r x now deadline inv ir ix e valid = ground (arith, inv.one_owner x r ix ir)

  touch-IsLinked :
      (s : Store) (r : Row) (now : ℕ)
      → IsLinked s
      → In r s.rows
      → IsLinked (touch c bad s r.session now).0
  unfolding touch touched
  touch-IsLinked s r now inv ir =
      elim (Bool-cases (bad touch_session || not (checks (touched c r.session now)))) [
        | inl e ↦ rw e inv
        | inr e ↦ rw e (
            update-IsLinked s _ _ inv
              λ x ix same. touched-Derives s r x now _ inv ir ix same (ground arith))
      ]

  judge-IsLinked :
      (fresh : Option Token) (s : Store) (r : Row) (now : ℕ)
      → IsLinked s
      → In r s.rows
      → IsLinked (judge c bad fresh s r now).0
  unfolding judge
  judge-IsLinked fresh s r now inv ir =
      ground (arith, rotate-IsLinked fresh s r now inv ir, touch-IsLinked s r now inv ir)

  pub by_token-In :
      (s : Store) (token : Token) (r : Row) → by_token c token s.rows ≡ some r → In r s.rows
  unfolding by_token
  by_token-In s token r e = (In-find _ r s.rows e).0

  verify-IsLinked :
      (fresh : Option Token) (s : Store) (token : Token) (now : ℕ)
      → IsLinked s
      → IsLinked (verify c bad fresh s token now).0
  unfolding verify
  verify-IsLinked fresh s token now inv = elim (Option-cases (by_token c token s.rows)) [
    | inl n ↦ ground arith
    | inr (r, e) ↦ ground (arith, judge-IsLinked fresh s r now inv (by_token-In s token r e))
  ]

  revoke-IsLinked :
      (s : Store) (i now : ℕ) (why : String) → IsLinked s → IsLinked (revoke bad s i why now).0
  unfolding revoke
  revoke-IsLinked s i now why inv =
      ground (arith, revoke_where-IsLinked s (λ (r : Row). r.id == i) now (truncate why 200) inv)

  revoke_all-IsLinked :
      (s : Store) (user now : ℕ) (why : String)
      → IsLinked s
      → IsLinked (revoke_all_for_user bad s user why now).0
  unfolding revoke_all_for_user
  revoke_all-IsLinked s user now why inv =
      ground
        (arith, revoke_where-IsLinked s (λ (r : Row). r.user_id == user) now (truncate why 200) inv)

  unlink-Derives : (gone : List Row) (x : Row) → checks x.session ≡ true → Derives (unlink gone x) x
  unfolding unlink
  unlink-Derives gone x w = elim (Option-cases x.rotated_from) [
    | inl n ↦ ground arith
    | inr (i, e) ↦ ground arith
  ]

  delete_over-IsLinked :
      (s : Store) (now : ℕ) → IsLinked s → IsLinked (record s { rows = delete_over now s.rows })
  unfolding delete_over
  delete_over-IsLinked s now inv = derived-IsLinked s (delete_over now s.rows) inv λ y iy.
      let gone : List Row = select (is_over now) s.rows in
      let (x, ix, e) = In-update (λ r. true) (unlink gone) y (delete (is_over now) s.rows) iy in
      let ix' = (In-delete (is_over now) x s.rows ix).0 in
      (x, ix', subst (λ z. Derives z x) (sym e) (unlink-Derives gone x (inv.within x ix')))

  sweep-IsLinked :
      (s : Store) (ts : List LoginToken) (now : ℕ) → IsLinked s → IsLinked (sweep bad s ts now).0
  unfolding sweep
  sweep-IsLinked s ts now inv = ground (arith, delete_over-IsLinked s now inv)

-- One call of the session store, with what the random source and the database make of it.
pub data Step (c : Sessions) : Store → Store → Type 0 where
  issues :
      (bad : Refuses) (fresh : Option Token) (s : Store) (user now : ℕ)
      → Step c s (issue c bad fresh s user now).0
  verifies :
      (bad : Refuses) (fresh : Option Token) (s : Store) (token : Token) (now : ℕ)
      → Step c s (verify c bad fresh s token now).0
  revokes :
      (bad : Refuses) (s : Store) (i : ℕ) (why : String) (now : ℕ)
      → Step c s (revoke bad s i why now).0
  revokes_all :
      (bad : Refuses) (s : Store) (user : ℕ) (why : String) (now : ℕ)
      → Step c s (revoke_all_for_user bad s user why now).0
  sweeps :
      (bad : Refuses) (s : Store) (ts : List LoginToken) (now : ℕ) → Step c s (sweep bad s ts now).0

pub data Reach (c : Sessions) (s : Store) : Store → Type 0 where
  here : Reach c s s
  next : {t u : Store} → Reach c s t → Step c t u → Reach c s u

Step-IsLinked : (c : Sessions) {s t : Store} → Step c s t → IsLinked s → IsLinked t
Step-IsLinked c (issues bad fresh s user now) inv = issue-IsLinked c bad fresh s user now inv
Step-IsLinked c (verifies bad fresh s token now) inv = verify-IsLinked c bad fresh s token now inv
Step-IsLinked c (revokes bad s i why now) inv = revoke-IsLinked c bad s i now why inv
Step-IsLinked c (revokes_all bad s user why now) inv = revoke_all-IsLinked c bad s user now why inv
Step-IsLinked c (sweeps bad s ts now) inv = sweep-IsLinked c bad s ts now inv

-- From a linked table, when whole calls of Issue, Verify, Revoke, RevokeAllForUser and Sweep follow one
-- another and whichever statements fail: ids stay below the next one, every row keeps the user and the absolute
-- deadline of its predecessor, and an idle deadline never passes the absolute one.
pub Reach-IsLinked : (c : Sessions) {s t : Store} → Reach c s t → IsLinked s → IsLinked t
Reach-IsLinked c here inv = inv
Reach-IsLinked c (next r st) inv = Step-IsLinked c st (Reach-IsLinked c r inv)

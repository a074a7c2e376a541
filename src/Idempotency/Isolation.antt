-- ===== src/Idempotency/Isolation.antt =====
-- One tenant's keys are out of another's reach.
use cofound.Prelude.{
  ℕ, String, ◌≡◌, ◌≢◌, refl, true, false, some, [], ◌∷◌, ◌++◌, arith, find, find-append,
  find-update_other, find-delete_other,
}
use cofound.Idempotency.Keys.{
  Stored, KeyRow, Table, Refuses, Middleware, Call, Claim, run, replay, refuse, claim, settle,
  decide, insert_key, reclaim, row_of, claimed_row, is_key, complete, release,
}

module _ (m : Middleware) (bad : Refuses) (c : Call) (org : ℕ) (key : String)
    (other : org ≢ c.org) where
  not_own : (r : KeyRow) → is_key c.org c.key r ≡ true → is_key org key r ≡ false
  unfolding is_key
  not_own r e = ground arith

  not_own_completed :
      (r : KeyRow) (s : Stored)
      → is_key c.org c.key r ≡ true
      → is_key org key (record r { completed = some s }) ≡ false
  unfolding is_key
  not_own_completed r s e = ground arith

  not_claimed : (now : ℕ) → is_key org key (claimed_row m c now) ≡ false
  unfolding is_key claimed_row
  not_claimed now = ground arith

  find-added :
      (now : ℕ) (t : Table)
      → find (is_key org key) (t ++ claimed_row m c now ∷ []) ≡ find (is_key org key) t
  unfolding find
  find-added now t =
      ground (arith, find-append (is_key org key) t (claimed_row m c now ∷ []), not_claimed now)

  insert_key-other :
      (now : ℕ) (t : Table) → find (is_key org key) (insert_key m c now t) ≡ find (is_key org key) t
  unfolding insert_key
  insert_key-other now t = ground (arith, find-added now t)

  reclaim-other :
      (now : ℕ) (t : Table) → find (is_key org key) (reclaim m c now t) ≡ find (is_key org key) t
  unfolding reclaim
  reclaim-other now t =
      find-update_other (is_key org key) (is_key c.org c.key) (λ r. claimed_row m c now) t
        (λ r e. (not_own r e, not_claimed now))

  decide-other :
      (now : ℕ) (t : Table) (r : KeyRow)
      → find (is_key org key) (decide m bad c now t r).0 ≡ find (is_key org key) t
  unfolding decide
  decide-other now t r = ground (arith, reclaim-other now t)

  settle-other :
      (before : Table) (d : Table × Claim)
      → find (is_key org key) d.0 ≡ find (is_key org key) before
      → find (is_key org key) (settle bad before d).0 ≡ find (is_key org key) before
  unfolding settle
  settle-other before (t, run) h = ground arith
  settle-other before (t, replay s) h = ground arith
  settle-other before (t, refuse e) h = refl

  -- Whatever a request of one org does with a key, claim, complete or release, and whichever
  -- statement fails, what the table holds under any key of another org is as it was.
  pub keys-isolated :
      (now : ℕ) (t : Table) (s : Stored)
      → (find (is_key org key) (claim m bad c now t).0 ≡ find (is_key org key) t)
        × (find (is_key org key) (complete bad c s t) ≡ find (is_key org key) t)
        × (find (is_key org key) (release bad c t) ≡ find (is_key org key) t)
  unfolding claim complete release
  keys-isolated now t s = (
    ground (
      arith,
      settle-other t (decide m bad c now (insert_key m c now t) (row_of m c now t)),
      decide-other now (insert_key m c now t) (row_of m c now t),
      insert_key-other now t,
    ),
    ground (
      arith,
      find-update_other (is_key org key) (is_key c.org c.key) (λ r. record r { completed = some s })
          t (λ r e. (not_own r e, not_own_completed r s e)),
    ),
    ground (arith, find-delete_other (is_key org key) (is_key c.org c.key) t not_own),
  )

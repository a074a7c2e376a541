-- ===== src/Idempotency/Replay.antt =====
-- Retrying with the same key.
use cofound.Prelude.{
  ℕ, ◌≤◌, String, ◌≡◌, true, false, none, some, List, [], ◌∷◌, ◌++◌, arith, eq_refl, ◌=s◌, length,
  find, trim_space,
}
use Prim.Native.String.{len}
use cofound.Idempotency.Keys.{
  max_key_length, Table, Refuses, Middleware, Call, run, claim, settle, decide, insert_key, row_of,
  claimed_row, is_key, same_call, begin_tx, claim_key, commit_tx, complete_key,
}
use cofound.Idempotency.Wrap.{Handler, Request}

module _ (m : Middleware) (c : Call) where
  own_call : (now : ℕ) → same_call c (claimed_row m c now) ≡ true
  unfolding same_call claimed_row
  own_call now = ground (arith, eq_refl c.method, eq_refl c.path)

  own_row :
      (now : ℕ)
      → ((claimed_row m c now).completed ≡ none) × (now ≤ (claimed_row m c now).expires_at)
  unfolding claimed_row
  own_row now = ground arith

  -- A key that is not in the table is claimed by a row of its own.
  pub claim-new :
      (bad : Refuses) (now : ℕ) (t : Table)
      → bad begin_tx ≡ false
      → bad claim_key ≡ false
      → bad commit_tx ≡ false
      → find (is_key c.org c.key) t ≡ none
      → claim m bad c now t ≡ (t ++ claimed_row m c now ∷ [], run)
  unfolding claim settle decide insert_key row_of
  claim-new bad now t b k d e = ground (arith, own_call now, own_row now)

module _ {S : Type 0} (m : Middleware) (handler : Handler S) where
  -- A request that Wrap takes through the key: it has a key of at most 255 bytes, an org, and a
  -- body within the bound.
  pub record IsKeyed (r : Request) (key : String) (org : ℕ) (body : List ℕ) : Type 0 where
    pub trimmed : trim_space r.key_header ≡ key
    pub not_empty : (key =s "") ≡ false
    pub short : len key ≤ max_key_length
    pub in_org : r.org ≡ some org
    pub read : r.body ≡ some body
    pub small : length body ≤ m.max_body

  -- The key is free, and no statement of the first request and of the second one's claim fails.
  pub record Goes (bad again : Refuses) (t : Table) (key : String) (org : ℕ) : Type 0 where
    pub free : find (is_key org key) t ≡ none
    pub begins : bad begin_tx ≡ false
    pub claims : bad claim_key ≡ false
    pub commits : bad commit_tx ≡ false
    pub completes : bad complete_key ≡ false
    pub begins_again : again begin_tx ≡ false
    pub claims_again : again claim_key ≡ false
    pub commits_again : again commit_tx ≡ false

-- ===== src/Auth/Session/Invariant.antt =====
-- What holds of the table user_sessions between two operations.
use cofound.Prelude.{
  update, In-update, Bool, if◌then◌else◌, ℕ, ◌+◌, ◌<◌, ◌≡◌, ◌⊎◌, inl, inr, true, none, some, List,
  [], ◌∷◌, ◌++◌, arith, In, In-append,
}
use cofound.Auth.Session.Store.{Row, Store, checks, insert}

-- The same user, and the same absolute deadline.
abbrev pub SameOwner : Row → Row → Type 0
SameOwner r q = (r.user_id ≡ q.user_id) × (r.absolute_expires_at ≡ q.absolute_expires_at)

-- Rows with one id, of which there is one.
abbrev pub SameRow : Row → Row → Type 0
SameRow r q = SameOwner r q × (r.issued_at ≡ q.issued_at)

pub record IsLinked (s : Store) : Type 0 where
  pub fresh : (r : Row) → In r s.rows → r.id < s.next_id
  pub fresh_from : (r : Row) (i : ℕ) → In r s.rows → r.rotated_from ≡ some i → i < s.next_id
  pub one_owner : (r q : Row) → In r s.rows → In q s.rows → r.id ≡ q.id → SameRow r q
  pub chain : (r q : Row) → In r s.rows → In q s.rows → r.rotated_from ≡ some q.id → SameOwner r q
  pub within : (r : Row) → In r s.rows → checks r.session ≡ true

-- `y` is what an update makes of the row `x`.
abbrev pub Derives : Row → Row → Type 0
Derives y x =
    (y.id ≡ x.id)
    × SameRow y x
    × ((y.rotated_from ≡ x.rotated_from) ⊎ (y.rotated_from ≡ none))
    × (checks y.session ≡ true)

pub derived-IsLinked :
    (s : Store) (ys : List Row)
    → IsLinked s
    → ((y : Row) → In y ys → (x : Row) × In x s.rows × Derives y x)
    → IsLinked (record s { rows = ys })
derived-IsLinked s ys inv old = record {
  fresh = λ r i. let (x, ix, d) = old r i in ground (arith, inv.fresh x ix);
  fresh_from = λ r k i e. let (x, ix, d) = old r i in ground (arith, inv.fresh_from x k ix);
  one_owner = λ r q i j e.
      let (x, ix, d) = old r i in
      let (z, iz, f) = old q j in ground (arith, inv.one_owner x z ix iz);
  chain = λ r q i j e.
      let (x, ix, d) = old r i in let (z, iz, f) = old q j in ground (arith, inv.chain x z ix iz);
  within = λ r i. let (x, ix, d) = old r i in ground (arith);
}

pub update-IsLinked :
    (s : Store) (p : Row → Bool) (f : Row → Row)
    → IsLinked s
    → ((x : Row) → In x s.rows → p x ≡ true → Derives (f x) x)
    → IsLinked (record s { rows = update p f s.rows })
update-IsLinked s p f inv d =
    derived-IsLinked s (update p f s.rows) inv
      λ y iy. let (x, ix, e) = In-update p f y s.rows iy in (x, ix, derive y x ix e)
  where
    derive : (y x : Row) → In x s.rows → y ≡ (if p x then f x else x) → Derives y x
    derive y x ix e = ground (arith, d x ix, inv.within x ix)

-- The row has no predecessor, or continues the chain of a row of the table.
abbrev pub Continues : Store → Row → Type 0
Continues s r =
    (r.rotated_from ≡ none)
    ⊎ ((o : Row) × In o s.rows × (r.rotated_from ≡ some o.id) × SameOwner r o)

pub In-snoc : (x r : Row) (xs : List Row) → In x (xs ++ r ∷ []) → In x xs ⊎ (x ≡ r)
In-snoc x r xs h = elim (In-append x xs (r ∷ []) h) [
  | inl i ↦ inl i
  | inr (inl e) ↦ inr e
  | inr (inr k) ↦ absurd k
]

abbrev added : Store → Row → Store
added s r = record { rows = s.rows ++ r ∷ []; next_id = s.next_id + 1 }

module _ (s : Store) (r : Row) (inv : IsLinked s) (own : r.id ≡ s.next_id) where
  added-fresh : (x : Row) → In x (added s r).rows → x.id < s.next_id + 1
  added-fresh x i = ground (arith, In-snoc x r s.rows i, inv.fresh x)

  added-fresh_from :
      Continues s r
      → (x : Row) (k : ℕ) → In x (added s r).rows
      → x.rotated_from ≡ some k
      → k < s.next_id + 1
  added-fresh_from (inl e) x k i f = ground (arith, In-snoc x r s.rows i, inv.fresh_from x k)
  added-fresh_from (inr (o, io, e, _)) x k i f =
      ground (arith, In-snoc x r s.rows i, inv.fresh_from x k, inv.fresh o io)

  added-one_owner :
      (x y : Row) → In x (added s r).rows → In y (added s r).rows → x.id ≡ y.id → SameRow x y
  added-one_owner x y i j e = ground (
    arith,
    In-snoc x r s.rows i,
    In-snoc y r s.rows j,
    inv.one_owner x y,
    inv.fresh x,
    inv.fresh y,
  )

  added-chain :
      Continues s r
      → (x y : Row) → In x (added s r).rows
      → In y (added s r).rows
      → x.rotated_from ≡ some y.id
      → SameOwner x y
  added-chain (inl n) x y i j e =
      ground
        (arith, In-snoc x r s.rows i, In-snoc y r s.rows j, inv.chain x y, inv.fresh_from x y.id)
  added-chain (inr (o, io, n, same)) x y i j e = ground (
    arith,
    In-snoc x r s.rows i,
    In-snoc y r s.rows j,
    inv.chain x y,
    inv.fresh_from x y.id,
    inv.one_owner o y io,
    inv.fresh o io,
  )

  pub added-IsLinked : Continues s r → checks r.session ≡ true → IsLinked (added s r)
  added-IsLinked from valid = record {
    fresh = added-fresh;
    fresh_from = added-fresh_from from;
    one_owner = added-one_owner;
    chain = added-chain from;
    within = λ x i. ground (arith, In-snoc x r s.rows i, inv.within x);
  }

-- What a successful insert did.
pub insert-some :
    (s t : Store) (row : ℕ → Row)
    → insert s row ≡ some t
    → (t ≡ added s (row s.next_id)) × (checks (row s.next_id).session ≡ true)
unfolding insert
insert-some s t row e = ground arith

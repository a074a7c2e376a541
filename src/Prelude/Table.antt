-- ===== src/Prelude/Table.antt =====
-- A table of rows as a list in insertion order, and the statements that the source sends to it:
-- `select … where`, `update … where`, `delete … where`, `count(*) … where`.
use Prim.Native.Nat.{ℕ, suc, ◌+◌, ◌≤◌, ◌<◌}
use mathlib.Core.Path.{◌≡◌, refl}
use mathlib.Core.Logic.{◌⊎◌, inl, inr}
use mathlib.Core.Bool.{Bool, true, false}
use mathlib.Core.Option
use mathlib.Core.Option.{Option, none, some}
use mathlib.Core.List.{List, [], ◌∷◌, ◌++◌}
use Prim.Native.String.{String}
use text.Mathlib.Text.{◌==◌ as ◌=s◌}
use native.Mathlib.Omega.{arith}
use text.Mathlib.TextEquality.{eq_iff}
use cofound.Prelude.Tests.{if◌then◌else◌}

-- Every row satisfies `P`.
abbrev pub All {ℓ κ} : {A : Type ℓ} → (A → Type κ) → List A → Type κ
All P [] = Unit
All P (x ∷ xs) = P x × All P xs

module _ {ℓ} {A : Type ℓ} where
  abbrev pub length : List A → ℕ
  length [] = 0
  length (x ∷ xs) = suc (length xs)

  -- `append(xs, x)`
  abbrev pub and_last : List A → A → List A
  and_last xs x = xs ++ x ∷ []

  pub length-append : (xs ys : List A) → length (xs ++ ys) ≡ length xs + length ys
  length-append [] ys = omega arith
  length-append (x ∷ xs) ys = omega (arith, length-append xs ys)

  -- The first row that passes the test.
  unfoldable pub find : (A → Bool) → List A → Option A
  find p [] = none
  find p (x ∷ xs) = if p x then some x else find p xs

  unfoldable pub update : (A → Bool) → (A → A) → List A → List A
  update p f [] = []
  update p f (x ∷ xs) = (if p x then f x else x) ∷ update p f xs

  unfoldable pub delete : (A → Bool) → List A → List A
  delete p [] = []
  delete p (x ∷ xs) = let rest = delete p xs in if p x then rest else x ∷ rest

  unfoldable pub count : (A → Bool) → List A → ℕ
  count p [] = 0
  count p (x ∷ xs) = if p x then suc (count p xs) else count p xs

module _ {ℓ κ} {A : Type ℓ} (P : A → Type κ) where
  pub All-append : (xs ys : List A) → All P xs → All P ys → All P (xs ++ ys)
  All-append [] ys h k = k
  All-append (x ∷ xs) ys h k = (h.0, All-append xs ys h.1 k)

  pub All-delete : (p : A → Bool) (xs : List A) → All P xs → All P (delete p xs)
  unfolding delete
  All-delete p [] h = tt
  All-delete p (x ∷ xs) h = ground (arith, All-delete p xs h.1)

  pub All-find : (p : A → Bool) (xs : List A) (x : A) → All P xs → find p xs ≡ some x → P x
  unfolding find
  All-find p [] x h e = cc
  All-find p (y ∷ xs) x h e = ground (arith, All-find p xs x h.1)

module _ {ℓ} {V : Type ℓ} where
  -- A Go map with string keys, as an association list; the first entry of a key counts.
  unfoldable pub lookup : String → List (String × V) → Option V
  lookup k [] = none
  lookup k ((j, v) ∷ m) = if j =s k then some v else lookup k m

  unfoldable pub keys : List (String × V) → List String
  keys [] = []
  keys ((j, v) ∷ m) = j ∷ keys m

  -- `m[k] = v`
  unfoldable pub assign : String → V → List (String × V) → List (String × V)
  assign k v [] = (k, v) ∷ []
  assign k v ((j, w) ∷ m) = if j =s k then (k, v) ∷ m else (j, w) ∷ assign k v m

  pub lookup-assign :
      (k j : String) (v : V) (m : List (String × V))
      → lookup j (assign k v m) ≡ (if k =s j then some v else lookup j m)
  unfolding lookup assign
  lookup-assign k j v [] = refl
  lookup-assign k j v ((i, w) ∷ m) =
      ground (arith, lookup-assign k j v m, eq_iff i k, eq_iff i j, eq_iff k j)

-- slices.Contains
unfoldable pub contains : List String → String → Bool
contains [] a = false
contains (x ∷ xs) a = if x =s a then true else contains xs a

unfoldable pub distinct : List String → Bool
unfolding contains
distinct [] = true
distinct (x ∷ xs) = if contains xs x then false else distinct xs

module _ {A : Type 0} where
  -- The row stands in the table.
  abbrev pub In : A → List A → Type 0
  In x [] = ⊥
  In x (y ∷ ys) = (x ≡ y) ⊎ In x ys

  pub In-append : (x : A) (xs ys : List A) → In x (xs ++ ys) → In x xs ⊎ In x ys
  In-append x [] ys h = inr h
  In-append x (y ∷ xs) ys (inl e) = inl (inl e)
  In-append x (y ∷ xs) ys (inr h) = elim (In-append x xs ys h) [
    | inl k ↦ inl (inr k)
    | inr k ↦ inr k
  ]

  pub In-delete :
      (p : A → Bool) (x : A) (xs : List A) → In x (delete p xs) → In x xs × (p x ≡ false)
  unfolding delete
  In-delete p x [] h = elim h [ ]
  In-delete p x (y ∷ xs) h = ground (arith, In-delete p x xs)

  pub In-update :
      (p : A → Bool) (f : A → A) (y : A) (xs : List A)
      → In y (update p f xs)
      → (x : A) × In x xs × (y ≡ (if p x then f x else x))
  unfolding update
  In-update p f y [] h = elim h [ ]
  In-update p f y (x ∷ xs) (inl e) = (x, inl refl, e)
  In-update p f y (x ∷ xs) (inr h) = let (z, i, e) = In-update p f y xs h in (z, inr i, e)

  pub In-find : (p : A → Bool) (x : A) (xs : List A) → find p xs ≡ some x → In x xs × (p x ≡ true)
  unfolding find
  In-find p x [] e = cc
  In-find p x (y ∷ xs) e = ground (arith, In-find p x xs)

module _ {ℓ} {A : Type ℓ} where
  abbrev pub on_row : (A → Bool) → (A → A) → A → A
  on_row p f x = if p x then f x else x

  -- A search whose test an update does not change finds the updated row.
  pub find-update :
      (q p : A → Bool) (f : A → A) (xs : List A)
      → ((x : A) → q (f x) ≡ q x)
      → find q (update p f xs) ≡ Option.map (on_row p f) (find q xs)
  unfolding find update
  find-update q p f [] h = refl
  find-update q p f (x ∷ xs) h = ground (arith, h x, find-update q p f xs h)

  pub count-update :
      (q p : A → Bool) (f : A → A) (xs : List A)
      → ((x : A) → q (f x) ≡ q x)
      → count q (update p f xs) ≡ count q xs
  unfolding count update
  count-update q p f [] h = refl
  count-update q p f (x ∷ xs) h = ground (arith, h x, count-update q p f xs h)

  pub count-append : (q : A → Bool) (xs ys : List A) → count q (xs ++ ys) ≡ count q xs + count q ys
  unfolding count
  count-append q [] ys = omega arith
  count-append q (x ∷ xs) ys = ground (arith, count-append q xs ys)

  pub find-append :
      (q : A → Bool) (xs ys : List A)
      → find q (xs ++ ys) ≡ elim (find q xs) [ none ↦ find q ys | some x ↦ some x ]
  unfolding find
  find-append q [] ys = refl
  find-append q (x ∷ xs) ys = ground (arith, find-append q xs ys)

  pub delete-update :
      (q p : A → Bool) (f : A → A) (xs : List A)
      → ((x : A) → q (f x) ≡ q x)
      → delete q (update p f xs) ≡ update p f (delete q xs)
  unfolding delete update
  delete-update q p f [] h = refl
  delete-update q p f (x ∷ xs) h = ground (arith, h x, delete-update q p f xs h)

  pub delete-append :
      (q : A → Bool) (xs ys : List A) → delete q (xs ++ ys) ≡ delete q xs ++ delete q ys
  unfolding delete
  delete-append q [] ys = refl
  delete-append q (x ∷ xs) ys = ground (arith, delete-append q xs ys)

  pub find-delete : (p : A → Bool) (xs : List A) → find p (delete p xs) ≡ none
  unfolding find delete
  find-delete p [] = refl
  find-delete p (x ∷ xs) = ground (arith, find-delete p xs)

  -- A search is not touched by an update, or a deletion, of rows that it passes over.
  pub find-update_other :
      (q p : A → Bool) (f : A → A) (xs : List A)
      → ((x : A) → p x ≡ true → (q x ≡ false) × (q (f x) ≡ false))
      → find q (update p f xs) ≡ find q xs
  unfolding find update
  find-update_other q p f [] h = refl
  find-update_other q p f (x ∷ xs) h = ground (arith, h x, find-update_other q p f xs h)

  pub find-delete_other :
      (q p : A → Bool) (xs : List A)
      → ((x : A) → p x ≡ true → q x ≡ false)
      → find q (delete p xs) ≡ find q xs
  unfolding find delete
  find-delete_other q p [] h = refl
  find-delete_other q p (x ∷ xs) h = ground (arith, h x, find-delete_other q p xs h)

module _ {A : Type 0} where
  pub count-none : (q : A → Bool) (xs : List A) → find q xs ≡ none → count q xs ≡ 0
  unfolding count find
  count-none q [] e = refl
  count-none q (x ∷ xs) e = ground (arith, count-none q xs)

  pub count-some : (q : A → Bool) (xs : List A) (x : A) → find q xs ≡ some x → 0 < count q xs
  unfolding count find
  count-some q [] y e = cc
  count-some q (x ∷ xs) y e = ground (arith, count-some q xs y)

  pub find-count : (q : A → Bool) (xs : List A) → count q xs ≡ 0 → find q xs ≡ none
  unfolding count find
  find-count q [] e = refl
  find-count q (x ∷ xs) e = ground (arith, find-count q xs)

  -- A test that is stricter passes fewer rows.
  pub count_le :
      (p q : A → Bool) (xs : List A) → ((x : A) → p x ≡ true → q x ≡ true) → count p xs ≤ count q xs
  unfolding count
  count_le p q [] h = omega arith
  count_le p q (x ∷ xs) h = ground (arith, h x, count_le p q xs h)

  pub count-update_le :
      (p q : A → Bool) (f : A → A) (xs : List A)
      → ((x : A) → p (f x) ≡ true → p x ≡ true)
      → count p (update q f xs) ≤ count p xs
  unfolding count update
  count-update_le p q f [] h = omega arith
  count-update_le p q f (x ∷ xs) h = ground (arith, h x, count-update_le p q f xs h)

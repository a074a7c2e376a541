-- ===== src/V1/Members/Counting.antt =====
-- How many rows of a kind a statement leaves.
use cofound.Prelude.{
  ◌+◌, ◌≤◌, ◌≡◌, refl, Bool, true, false, ◌&&◌, some, List, [], ◌∷◌, arith, find, update, delete,
  count, if◌then◌else◌,
}

module _ {A : Type 0} (p q : A → Bool) where
  abbrev pub both : A → Bool
  both x = p x && q x

  pub count-delete : (xs : List A) → count p (delete q xs) + count both xs ≡ count p xs
  unfolding count delete
  count-delete [] = refl
  count-delete (x ∷ xs) = ground (arith, count-delete xs)

  pub count-both : (xs : List A) → count both xs ≤ count q xs
  unfolding count
  count-both [] = omega arith
  count-both (x ∷ xs) = ground (arith, count-both xs)

  -- The one row that passes `q` decides.
  pub count-both_one :
      (m : A) (xs : List A)
      → count q xs ≤ 1
      → find q xs ≡ some m
      → count both xs ≡ (if p m then 1 else 0)
  unfolding count find
  count-both_one m [] h e = cc
  count-both_one m (x ∷ xs) h e = ground (arith, count-both_one m xs, count-both xs)

  pub count-update-delete :
      (f : A → A) (xs : List A) → count p (delete q xs) ≤ count p (update q f xs)
  unfolding count delete update
  count-update-delete f [] = omega arith
  count-update-delete f (x ∷ xs) = ground (arith, count-update-delete f xs)

  pub count-update_up :
      (f : A → A) (xs : List A)
      → ((x : A) → q x ≡ true → p x ≡ true → p (f x) ≡ true)
      → count p xs ≤ count p (update q f xs)
  unfolding count update
  count-update_up f [] h = omega arith
  count-update_up f (x ∷ xs) h = ground (arith, count-update_up f xs h, h x)

  pub count-update_drop :
      (f : A → A) (xs : List A)
      → ((x : A) → p (f x) ≡ false)
      → count p (update q f xs) ≡ count p (delete q xs)
  unfolding count delete update
  count-update_drop f [] h = refl
  count-update_drop f (x ∷ xs) h = ground (arith, count-update_drop f xs h, h x)

pub count-delete_le :
    {A : Type 0} (p q : A → Bool) (xs : List A) → count p (delete q xs) ≤ count p xs
count-delete_le p q xs = omega (arith, count-delete p q xs)

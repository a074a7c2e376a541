-- ===== src/Httpx/RateLimit/Sweeping.antt =====
-- Storing and sweeping in one shard: what a key finds after them.
use cofound.Prelude.{
  ℕ, ◌+◌, ◌-◌, ◌*◌, ◌/◌, ◌≤◌, ◌<◌, ◌≡◌, refl, inl, inr, ◌⊎◌, String, Bool, true, false, none, some,
  [], ◌∷◌, arith, eq_iff, ltb, ◌=s◌, lookup, lookup-assign, assign, Bool-cases, if◌then◌else◌,
}
use native.Mathlib.Nat.{mul-pos, lt-mul-div-succ, mul-le-mul_right}
use cofound.Httpx.RateLimit.{
  second, RateLimit, Bucket, Buckets, MemoryStore, shard_of, capacity, put_bucket, find_bucket,
  idle_time, drop_idle,
}

-- A bucket that any later refill fills.
abbrev pub IsFull : RateLimit → ℕ → Bucket → Type 0
IsFull l now b = (b.last < now) × (capacity l ≤ (now - b.last) * l.rate)

pub find_bucket-put_bucket :
    (k j : String) (b : Bucket) (s : MemoryStore)
    → find_bucket j (put_bucket k b s) ≡ (if k =s j then some b else find_bucket j s)
unfolding find_bucket put_bucket
find_bucket-put_bucket k j b s =
    ground (arith, lookup-assign k j b (s.shards (shard_of j)), eq_iff k j)

-- A capacity that `2 * c / (r * s)` spans of s fill twice over is full after a longer time.
filled : (c r s e : ℕ) → 0 < r → 0 < s → 2 * c / (r * s) * s < e → s ≤ e → c ≤ e * r
filled c r s e pr ps p m =
    let over : (2 * c / (r * s) * s + s) * r ≤ 2 * e * r = mul-le-mul_right r (omega arith) in
    omega (arith, lt-mul-div-succ (2 * c) {b = r * s} (mul-pos pr ps), over)

-- With an idle time that is passed, a bucket is full.
pub idle-IsFull :
    (l : RateLimit) (now : ℕ) (b : Bucket)
    → 0 < l.rate
    → b.last + idle_time l < now
    → IsFull l now b
unfolding idle_time
idle-IsFull l now b h k = (
  omega arith,
  filled (capacity l) l.rate second (now - b.last) h (omega arith) (ground arith) (ground arith),
)

-- Sweeping forgets the first bucket of a key only when it is full; a map has one for each key.
unfoldable pub absent : String → Buckets → Bool
absent k [] = true
absent k ((j, c) ∷ m) = if j =s k then false else absent k m

-- A Go map has a key once.
unfoldable pub IsMap : Buckets → Type 0
unfolding absent
IsMap [] = Unit {0}
IsMap ((k, b) ∷ m) = (absent k m ≡ true) × IsMap m

absent-drop_idle :
    (idle now : ℕ) (k : String) (m : Buckets)
    → absent k m ≡ true
    → absent k (drop_idle idle now m) ≡ true
unfolding absent drop_idle
absent-drop_idle idle now k [] h = refl
absent-drop_idle idle now k ((j, c) ∷ m) h = ground (arith, absent-drop_idle idle now k m)

absent-assign :
    (k j : String) (b : Bucket) (m : Buckets)
    → (k =s j) ≡ false
    → absent j m ≡ true
    → absent j (assign k b m) ≡ true
unfolding absent assign
absent-assign k j b [] n h = ground arith
absent-assign k j b ((i, c) ∷ m) n h = ground (arith, absent-assign k j b m n)

absent-lookup : (k : String) (m : Buckets) → absent k m ≡ true → lookup k m ≡ none
unfolding absent lookup
absent-lookup k [] h = refl
absent-lookup k ((j, c) ∷ m) h = ground (arith, absent-lookup k m)

pub drop_idle-IsMap : (idle now : ℕ) (m : Buckets) → IsMap m → IsMap (drop_idle idle now m)
unfolding IsMap drop_idle
drop_idle-IsMap idle now [] h = tt
drop_idle-IsMap idle now ((j, c) ∷ m) (h, k) =
    ground (arith, absent-drop_idle idle now j m h, drop_idle-IsMap idle now m k)

same_key :
    (k j : String) (b c : Bucket) (m : Buckets)
    → (j =s k) ≡ true
    → absent j m ≡ true
    → IsMap m
    → IsMap (assign k b ((j, c) ∷ m))
unfolding IsMap assign
same_key k j b c m e h i = rw e (ground (arith, eq_iff j k), i)

pub assign-IsMap : (k : String) (b : Bucket) (m : Buckets) → IsMap m → IsMap (assign k b m)
unfolding IsMap assign
assign-IsMap k b [] h = (unfold absent in refl, tt)
assign-IsMap k b ((j, c) ∷ m) (h, i) = elim (Bool-cases (j =s k)) [
  | inl same ↦ same_key k j b c m same h i
  | inr other ↦
      rw other
        (absent-assign k j b m (ground (arith, eq_iff j k, eq_iff k j)) h, assign-IsMap k b m i)
]

-- What a sweep did to a key's bucket: nothing, or it forgot an old one.
abbrev pub Swept : ℕ → ℕ → String → Buckets → Buckets → Type 0
Swept idle now k m n =
    (lookup k n ≡ lookup k m)
    ⊎ ((b : Bucket) × (lookup k m ≡ some b) × (b.last + idle < now) × (lookup k n ≡ none))

dropped :
    (idle now : ℕ) (k j : String) (c : Bucket) (m : Buckets)
    → absent j m ≡ true
    → ltb (c.last + idle) now ≡ true
    → (j =s k) ≡ true
    → lookup k (drop_idle idle now ((j, c) ∷ m)) ≡ none
unfolding lookup drop_idle
dropped idle now k j c m u old same = rw old (
    absent-lookup k (drop_idle idle now m)
      (absent-drop_idle idle now k m (ground (arith, eq_iff j k))))

kept :
    (idle now : ℕ) (k j : String) (c : Bucket) (m : Buckets)
    → ltb (c.last + idle) now ≡ false
    → (j =s k) ≡ false
    → Swept idle now k m (drop_idle idle now m)
    → Swept idle now k ((j, c) ∷ m) (drop_idle idle now ((j, c) ∷ m))
unfolding lookup drop_idle
kept idle now k j c m young other w = rw (young, other) w

pub lookup-drop_idle :
    (idle now : ℕ) (k : String) (m : Buckets) → IsMap m → Swept idle now k m (drop_idle idle now m)
unfolding lookup drop_idle IsMap
lookup-drop_idle idle now k [] u = inl refl
lookup-drop_idle idle now k ((j, c) ∷ m) (u, v) = elim (Bool-cases (ltb (c.last + idle) now)) [
  | inl old ↦ elim (Bool-cases (j =s k)) [
    | inl same ↦ inr (c, rw same refl, ground arith, dropped idle now k j c m u old same)
    | inr other ↦ rw (old, other) (lookup-drop_idle idle now k m v)
  ]
  | inr young ↦ elim (Bool-cases (j =s k)) [
    | inl same ↦ inl (ground arith)
    | inr other ↦ kept idle now k j c m young other (lookup-drop_idle idle now k m v)
  ]
]

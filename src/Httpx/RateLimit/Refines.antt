-- ===== src/Httpx/RateLimit/Refines.antt =====
-- Sharding and sweeping change no answer.
use cofound.Prelude.{
  ℕ, ◌+◌, ◌-◌, ◌≤◌, ◌<◌, ◌≡◌, refl, sym, ap, ◌∙◌, inl, inr, ◌⊎◌, String, Bool, true, false, Option,
  none, some, [], ◌∷◌, arith, ltb, ◌==◌, ◌=s◌, lookup, Bool-cases, if◌then◌else◌,
}
use native.Mathlib.Nat.{mul-le-mul_right}
use cofound.Httpx.RateLimit.{
  minute, RateLimit, Bucket, Buckets, MemoryStore, new_store, shard_of, capacity, refill, spend,
  bucket_at, use_bucket, put_bucket, find_bucket, idle_time, drop_idle, maybe_sweep, take,
}
use cofound.Httpx.RateLimit.Sweeping.{
  IsFull, idle-IsFull, find_bucket-put_bucket, IsMap, drop_idle-IsMap, assign-IsMap,
  lookup-drop_idle,
}
use cofound.Httpx.RateLimit.Ledger.{
  InOrder, last_time, store_after, ledger_after, Ledger, write, ledger_take, Calls, answers,
  ledger_answers,
}

-- The store's bucket for a key is the ledger's, or forgotten and full.
abbrev pub Agrees : RateLimit → ℕ → Option Bucket → Option Bucket → Type 0
Agrees l now o d = (o ≡ d) ⊎ ((b : Bucket) × (o ≡ none) × (d ≡ some b) × IsFull l now b)

Agrees-later :
    (l : RateLimit) (now t : ℕ) (o d : Option Bucket) → now ≤ t → Agrees l now o d → Agrees l t o d
Agrees-later l now t o d h (inl e) = inl e
Agrees-later l now t o d h (inr (b, e, f, (p, q))) = inr (
  b,
  e,
  f,
  (
    omega arith,
    omega (arith, mul-le-mul_right {m = now - b.last} {n = t - b.last} l.rate (omega arith)),
  ),
)

IsFull-refill :
    (l : RateLimit) (now : ℕ) (b : Bucket)
    → IsFull l now b
    → refill l now b ≡ record { tokens = capacity l; last = now }
unfolding refill
IsFull-refill l now b (p, q) = ground arith

new-refill :
    (l : RateLimit) (now : ℕ)
    → refill l now (record { tokens = capacity l; last = now })
      ≡ record { tokens = capacity l; last = now }
unfolding refill
new-refill l now = ground arith

-- A full bucket serves as a new one does.
IsFull-use_bucket :
    (l : RateLimit) (now : ℕ) (b : Bucket)
    → IsFull l now b
    → use_bucket l now none ≡ use_bucket l now (some b)
unfolding use_bucket bucket_at
IsFull-use_bucket l now b h = ap (spend l) (new-refill l now ∙ sym (IsFull-refill l now b h))

Agrees-use_bucket :
    (l : RateLimit) (now : ℕ) (o d : Option Bucket)
    → Agrees l now o d
    → use_bucket l now o ≡ use_bucket l now d
Agrees-use_bucket l now o d (inl e) = rw e refl
Agrees-use_bucket l now o d (inr (b, e, f, h)) = rw (e, f) (IsFull-use_bucket l now b h)

drop_idle-Agrees :
    (l : RateLimit) (now : ℕ) (k : String) (m : Buckets) (d : Option Bucket)
    → 0 < l.rate
    → IsMap m
    → Agrees l now (lookup k m) d
    → Agrees l now (lookup k (drop_idle (idle_time l) now m)) d
drop_idle-Agrees l now k m d h u w = elim (lookup-drop_idle (idle_time l) now k m u) [
  | inl same ↦ rw same w
  | inr (b, found, old, gone) ↦ elim w [
    | inl e ↦ inr (b, gone, sym e ∙ found, idle-IsFull l now b h old)
    | inr (c, e, f, g) ↦ inr (c, gone, f, g)
  ]
]

-- The store stands for the ledger.
abbrev pub Simulates : RateLimit → ℕ → MemoryStore → Ledger → Type 0
Simulates l now s a =
    ((j : String) → Agrees l now (find_bucket j s) (a j)) × ((i : ℕ) → IsMap (s.shards i))

pub Simulates-later :
    (l : RateLimit) (now t : ℕ) (s : MemoryStore) (a : Ledger)
    → now ≤ t
    → Simulates l now s a
    → Simulates l t s a
Simulates-later l now t s a h (f, u) =
    (λ j. Agrees-later l now t (find_bucket j s) (a j) h (f j), u)

put_bucket-Agrees :
    (k j : String) (b : Bucket) (l : RateLimit) (now : ℕ) (s : MemoryStore) (a : Ledger)
    → Agrees l now (find_bucket j s) (a j)
    → Agrees l now (find_bucket j (put_bucket k b s)) (write k b a j)
unfolding write
put_bucket-Agrees k j b l now s a w =
    rw (find_bucket-put_bucket k j b s)
      (elim (Bool-cases (k =s j)) [ inl same ↦ rw same (inl refl) | inr other ↦ rw other w ])

-- What holds on both branches.
either : {A : Type 0} (P : A → Type 0) (c : Bool) {x y : A} → P x → P y → P (if c then x else y)
either P true h k = h
either P false h k = k

put_bucket-Simulates :
    (k : String) (b : Bucket) (l : RateLimit) (now : ℕ) (s : MemoryStore) (a : Ledger)
    → Simulates l now s a
    → Simulates l now (put_bucket k b s) (write k b a)
unfolding put_bucket write
put_bucket-Simulates k b l now s a (f, u) = (
  (λ j. put_bucket-Agrees k j b l now s a (f j)),
  (λ i. either IsMap (i == shard_of k) (assign-IsMap k b (s.shards i) (u i)) (u i)),
)

maybe_sweep-Simulates :
    (l : RateLimit) (now : ℕ) (s : MemoryStore) (a : Ledger)
    → 0 < l.rate
    → Simulates l now s a
    → Simulates l now (maybe_sweep l now s) a
unfolding maybe_sweep find_bucket
maybe_sweep-Simulates l now s a h (f, u) = elim (Bool-cases (ltb now (s.last_sweep + minute))) [
  | inl early ↦ rw early (f, u)
  | inr due ↦ rw due (
    (λ j. drop_idle-Agrees l now j (s.shards (shard_of j)) (a j) h (u (shard_of j)) (f j)),
    (λ i. drop_idle-IsMap (idle_time l) now (s.shards i) (u i)),
  )
]

counted :
    (k : String) (l : RateLimit) (now : ℕ) (s : MemoryStore) (a : Ledger)
    → (l.rate == 0) ≡ false
    → Simulates l now s a
    → Simulates l now
        (maybe_sweep l now (put_bucket k (use_bucket l now (a k)).0 s))
        (write k (use_bucket l now (a k)).0 a)
counted k l now s a h w =
    let b = (use_bucket l now (a k)).0 in
    maybe_sweep-Simulates l now (put_bucket k b s) (write k b a) (ground arith)
      (put_bucket-Simulates k b l now s a w)

-- One call: the same answer, and the store still stands for the ledger.
take-Simulates :
    (k : String) (l : RateLimit) (now : ℕ) (s : MemoryStore) (a : Ledger)
    → Simulates l now s a
    → ((take k l now s).1 ≡ (ledger_take k l now a).1)
      × Simulates l now (take k l now s).0 (ledger_take k l now a).0
unfolding take ledger_take
take-Simulates k l now s a (f, u) = elim (Bool-cases (l.rate == 0)) [
  | inl unlimited ↦ rw unlimited (refl, (f, u))
  | inr limited ↦
      rw (limited, Agrees-use_bucket l now (find_bucket k s) (a k) (f k))
        (refl, counted k l now s a limited (f, u))
]

pub answers_from :
    (l : RateLimit) (t : ℕ) (cs : Calls) (s : MemoryStore) (a : Ledger)
    → InOrder t cs
    → Simulates l t s a
    → answers l cs s ≡ ledger_answers l cs a
unfolding answers ledger_answers InOrder
answers_from l t [] s a o w = refl
answers_from l t ((k, now) ∷ cs) s a (h, o) w =
    let step = take-Simulates k l now s a (Simulates-later l t now s a h w) in
    rw (step.0, answers_from l now cs (take k l now s).0 (ledger_take k l now a).0 o step.1) refl

-- The store still stands for the ledger after any calls.
pub after-Simulates :
    (l : RateLimit) (t : ℕ) (cs : Calls) (s : MemoryStore) (a : Ledger)
    → InOrder t cs
    → Simulates l t s a
    → Simulates l (last_time t cs) (store_after l cs s) (ledger_after l cs a)
unfolding store_after ledger_after InOrder last_time
after-Simulates l t [] s a o w = w
after-Simulates l t ((k, now) ∷ cs) s a (h, o) w =
    let step = take-Simulates k l now s a (Simulates-later l t now s a h w) in
    after-Simulates l now cs (take k l now s).0 (ledger_take k l now a).0 o step.1

pub new-Simulates : (l : RateLimit) → Simulates l 0 new_store (λ k. none)
new-Simulates l =
    ((λ j. inl (unfold find_bucket new_store lookup in refl)), λ i. unfold new_store IsMap in tt)

-- On calls whose times never go back, the store, which is sharded and forgets idle buckets, gives
-- the answers of a ledger that keeps a bucket for every key for ever.
pub answers-ledger_answers :
    (l : RateLimit) (cs : Calls)
    → InOrder 0 cs
    → answers l cs new_store ≡ ledger_answers l cs (λ k. none)
answers-ledger_answers l cs o = answers_from l 0 cs new_store (λ k. none) o (new-Simulates l)

-- ===== src/Httpx/RateLimit/Admitted.antt =====
-- How many requests a bucket lets through.
use cofound.Prelude.{
  ℕ, ◌+◌, ◌-◌, ◌*◌, ◌≤◌, ◌≡◌, refl, ap, ◌∙◌, String, Bool, true, false, Option, none, some, List,
  [], ◌∷◌, arith, eq_iff, leb, ◌==◌, ◌=s◌, Bool-cases, if◌then◌else◌, inl, inr,
}
use native.Mathlib.Nat.{mul-le-mul_right, add-mul}
use cofound.Httpx.RateLimit.{
  RateLimit, Bucket, new_store, capacity, Answer, refill, spend, bucket_at, use_bucket,
}
use cofound.Httpx.RateLimit.Ledger.{
  Ledger, write, ledger_take, Calls, answers, ledger_answers, InOrder, last_time, store_after,
  ledger_after, granted,
}
use cofound.Httpx.RateLimit.Refines.{Simulates-later, answers_from, after-Simulates, new-Simulates}

-- The tokens that a call at a time would find.
unfoldable credit : RateLimit → ℕ → Option Bucket → ℕ
credit l now o = (refill l now (bucket_at l now o)).tokens

credit_later :
    (l : RateLimit) (t now : ℕ) (o : Option Bucket)
    → t ≤ now
    → credit l now o ≤ credit l t o + (now - t) * l.rate
unfolding credit refill bucket_at
credit_later l t now none h = ground arith
credit_later l t now (some b) h =
    let apart : (now - b.last) * l.rate ≤ ((t - b.last) + (now - t)) * l.rate =
      mul-le-mul_right {m = now - b.last} {n = (t - b.last) + (now - t)} l.rate (omega arith) in
    ground (arith, apart)

last_time_le : (t : ℕ) (cs : Calls) → InOrder t cs → t ≤ last_time t cs
unfolding last_time InOrder
last_time_le t [] o = omega arith
last_time_le t ((k, now) ∷ cs) (h, o) = omega (arith, last_time_le now cs o)

-- A call leaves what it found, less what it took.
unfoldable cost : Bool → RateLimit → ℕ
cost true l = l.one
cost false l = 0

refill_last : (l : RateLimit) (now : ℕ) (b : Bucket) → now ≤ (refill l now b).last
unfolding refill
refill_last l now b = ground arith

credit_held :
    (l : RateLimit) (now : ℕ) (b : Bucket) → now ≤ b.last → credit l now (some b) ≡ b.tokens
unfolding credit bucket_at refill
credit_held l now b h = ground arith

spend_tokens :
    (l : RateLimit) (b : Bucket) → cost (spend l b).1.0 l + (spend l b).0.tokens ≡ b.tokens
unfolding spend cost
spend_tokens l b = elim (Bool-cases (leb l.one b.tokens)) [
  | inl enough ↦ rw enough (ground arith)
  | inr short ↦ rw short (omega arith)
]

spend_last : (l : RateLimit) (b : Bucket) → (spend l b).0.last ≡ b.last
unfolding spend
spend_last l b = elim (Bool-cases (leb l.one b.tokens)) [
  | inl enough ↦ rw enough refl
  | inr short ↦ rw short refl
]

use_bucket_tokens :
    (l : RateLimit) (now : ℕ) (o : Option Bucket) → (use_bucket l now o).0.tokens ≤ credit l now o
unfolding use_bucket credit
use_bucket_tokens l now o = omega (arith, spend_tokens l (refill l now (bucket_at l now o)))

use_bucket-credit :
    (l : RateLimit) (now : ℕ) (o : Option Bucket)
    → cost (use_bucket l now o).1.0 l + credit l now (some (use_bucket l now o).0) ≡ credit l now o
unfolding use_bucket credit
use_bucket-credit l now o =
    let b = refill l now (bucket_at l now o) in
    ap (◌+◌ (cost (spend l b).1.0 l)) (
      credit_held l now (spend l b).0 (rw (spend_last l b) (refill_last l now (bucket_at l now o))))
    ∙ spend_tokens l b

-- Time passes before a call and after it.
spread :
    (l : RateLimit) (t now : ℕ) (cs : Calls) (n c : ℕ)
    → t ≤ now
    → InOrder now cs
    → n ≤ c + (now - t) * l.rate + (last_time now cs - now) * l.rate
    → n ≤ c + (last_time now cs - t) * l.rate
spread l t now cs n c h o w =
    let both : (last_time now cs - t) * l.rate
        ≡ (now - t) * l.rate + (last_time now cs - now) * l.rate =
      ap (λ d. d * l.rate) (omega (arith, last_time_le now cs o))
      ∙ add-mul (now - t) (last_time now cs - now) l.rate in
    omega (arith, both, w)

granted-cons :
    (l : RateLimit) (k j : String) (now : ℕ) (cs : Calls) (r : Answer) (rs : List Answer)
    → granted k ((j, now) ∷ cs) (r ∷ rs) * l.one
      ≡ (if j =s k then cost r.0 l else 0) + granted k cs rs * l.one
unfolding granted cost
granted-cons l k j now cs (true, wait) rs = elim (Bool-cases (j =s k)) [
  | inl same ↦ rw same (omega arith)
  | inr other ↦ rw other (omega arith)
]
granted-cons l k j now cs (false, wait) rs = elim (Bool-cases (j =s k)) [
  | inl same ↦ rw same (omega arith)
  | inr other ↦ rw other (omega arith)
]

-- A call of a key takes from its credit what it grants.
granted_call :
    (l : RateLimit) (k j : String) (now : ℕ) (cs : Calls) (a : Ledger) (rs : List Answer)
    (later : ℕ)
    → granted k cs rs * l.one ≤ credit l now (write j (use_bucket l now (a j)).0 a k) + later
    → granted k ((j, now) ∷ cs) ((use_bucket l now (a j)).1 ∷ rs) * l.one
      ≤ credit l now (a k) + later
unfolding write
granted_call l k j now cs a rs later w =
    rw (granted-cons l k j now cs (use_bucket l now (a j)).1 rs) (elim (Bool-cases (j =s k)) [
      | inl same ↦
          let found : credit l now (a j) ≡ credit l now (a k) =
            ap (λ i. credit l now (a i)) (ground (arith, eq_iff j k)) in
          rw same (omega (arith, found, use_bucket-credit l now (a j), rw same at w))
      | inr other ↦ rw other (omega (arith, rw other at w))
    ])

-- The bound on a run of the ledger, from what its first call could find.
granted-credit :
    (l : RateLimit) (k : String) (t : ℕ) (cs : Calls) (a : Ledger)
    → (l.rate == 0) ≡ false
    → InOrder t cs
    → granted k cs (ledger_answers l cs a) * l.one
      ≤ credit l t (a k) + (last_time t cs - t) * l.rate
unfolding ledger_answers ledger_take InOrder last_time
granted-credit l k t [] a p o = unfold granted in omega arith
granted-credit l k t ((j, now) ∷ cs) a p (h, o) =
    let b = (use_bucket l now (a j)).0 in
    rw p (
      let rest =
        granted_call l k j now cs a (ledger_answers l cs (write j b a))
          ((last_time now cs - now) * l.rate) (granted-credit l k now cs (write j b a) p o) in
      spread l t now cs
        (granted k ((j, now) ∷ cs) ((use_bucket l now (a j)).1 ∷ ledger_answers l cs (write j b a))
          * l.one)
        (credit l t (a k)) h o (omega (arith, rest, credit_later l t now (a k) h)))

-- No bucket of the ledger ever holds more than the capacity.
abbrev Bounded : RateLimit → Ledger → Type 0
Bounded l a = (k : String) (t : ℕ) → credit l t (a k) ≤ capacity l

credit-some :
    (l : RateLimit) (t : ℕ) (b : Bucket) → b.tokens ≤ capacity l → credit l t (some b) ≤ capacity l
unfolding credit refill bucket_at
credit-some l t b h = ground arith

ledger_take-Bounded :
    (k : String) (l : RateLimit) (now : ℕ) (a : Ledger)
    → Bounded l a
    → Bounded l (ledger_take k l now a).0
unfolding ledger_take write
ledger_take-Bounded k l now a h j t = elim (Bool-cases (l.rate == 0)) [
  | inl unlimited ↦ rw unlimited (h j t)
  | inr limited ↦ elim (Bool-cases (k =s j)) [
    | inl same ↦
        rw (limited, same)
          (credit-some l t (use_bucket l now (a k)).0
            (omega (arith, use_bucket_tokens l now (a k), h k now)))
    | inr other ↦ rw (limited, other) (h j t)
  ]
]

ledger_after-Bounded :
    (l : RateLimit) (cs : Calls) (a : Ledger) → Bounded l a → Bounded l (ledger_after l cs a)
unfolding ledger_after
ledger_after-Bounded l [] a h = h
ledger_after-Bounded l ((k, now) ∷ cs) a h =
    ledger_after-Bounded l cs (ledger_take k l now a).0 (ledger_take-Bounded k l now a h)

new-Bounded : (l : RateLimit) → Bounded l (λ k. none)
unfolding credit refill bucket_at
new-Bounded l k t = ground arith

-- With a positive rate and times that never go back, whatever was called before a window, the calls
-- for one key that the store lets through within it take no more tokens than the capacity and what
-- arrives at the rate from the window's start to its last call.
pub granted_le :
    (l : RateLimit) (k : String) (before window : Calls) (t : ℕ)
    → (l.rate == 0) ≡ false
    → InOrder 0 before
    → last_time 0 before ≤ t
    → InOrder t window
    → granted k window (answers l window (store_after l before new_store)) * l.one
      ≤ capacity l + (last_time t window - t) * l.rate
granted_le l k before window t p o h w =
    let a = ledger_after l before (λ j. none) in
    let s = after-Simulates l 0 before new_store (λ j. none) o (new-Simulates l) in
    rw
      (answers_from l t window (store_after l before new_store) a w
        (Simulates-later l (last_time 0 before) t (store_after l before new_store) a h s))
      (omega (
        arith,
        granted-credit l k t window a p w,
        ledger_after-Bounded l before (λ j. none) (new-Bounded l) k t,
      ))

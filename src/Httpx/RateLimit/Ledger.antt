-- ===== src/Httpx/RateLimit/Ledger.antt =====
-- What a store of token buckets promises: a bucket for every key ever seen, which is never forgotten.
use cofound.Prelude.{
  ℕ, suc, ◌≤◌, String, true, false, Option, some, List, [], ◌∷◌, ◌==◌, ◌=s◌, if◌then◌else◌,
}
use cofound.Httpx.RateLimit.{RateLimit, Bucket, MemoryStore, Answer, use_bucket, take}

abbrev pub Ledger : Type 0
Ledger = String → Option Bucket

unfoldable pub write : String → Bucket → Ledger → Ledger
write k b a = λ j. if k =s j then some b else a j

unfoldable pub ledger_take : String → RateLimit → ℕ → Ledger → Ledger × Answer
unfolding write
ledger_take k l now a =
    if l.rate == 0 then (a, (true, 0)) else let (b, r) = use_bucket l now (a k) in (write k b a, r)

-- Calls of Take, with the key and the time of each, and their answers.
abbrev pub Calls : Type 0
Calls = List (String × ℕ)

unfoldable pub answers : RateLimit → Calls → MemoryStore → List Answer
answers l [] s = []
answers l ((k, now) ∷ cs) s = let (t, r) = take k l now s in r ∷ answers l cs t

unfoldable pub ledger_answers : RateLimit → Calls → Ledger → List Answer
ledger_answers l [] a = []
ledger_answers l ((k, now) ∷ cs) a = let (b, r) = ledger_take k l now a in r ∷ ledger_answers l cs b

-- The times of the calls never go back.
unfoldable pub InOrder : ℕ → Calls → Type 0
InOrder t [] = Unit {0}
InOrder t ((k, now) ∷ cs) = (t ≤ now) × InOrder now cs

-- The time of the last call, or t when there is none.
unfoldable pub last_time : ℕ → Calls → ℕ
last_time t [] = t
last_time t ((k, now) ∷ cs) = last_time now cs

unfoldable pub store_after : RateLimit → Calls → MemoryStore → MemoryStore
store_after l [] s = s
store_after l ((k, now) ∷ cs) s = store_after l cs (take k l now s).0

unfoldable pub ledger_after : RateLimit → Calls → Ledger → Ledger
ledger_after l [] a = a
ledger_after l ((k, now) ∷ cs) a = ledger_after l cs (ledger_take k l now a).0

-- How many calls for a key were answered with a token.
unfoldable pub granted : String → Calls → List Answer → ℕ
granted k ((j, now) ∷ cs) ((true, wait) ∷ rs) =
    if j =s k then suc (granted k cs rs) else granted k cs rs
granted k ((j, now) ∷ cs) ((false, wait) ∷ rs) = granted k cs rs
granted k cs rs = 0

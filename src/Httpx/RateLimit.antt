-- ===== src/Httpx/RateLimit.antt =====
-- packages/chassis/httpx/ratelimit.go: token buckets in one process. A time is in nanoseconds. The
-- source counts tokens in float64; here they are exact, in units of which `one` make a token and
-- `rate` arrive in a nanosecond, so that every rational rate and burst has its units. A lock is held
-- for the whole of what it guards, so a run is a sequence of calls.
pub mod Ledger
pub mod Sweeping
pub mod Refines
pub mod Admitted
use Prim.Native.Nat.{bit_xor}
use Prim.Native.String.{◌++◌}
use cofound.Prelude.{
  ℕ, ◌+◌, ◌-◌, ◌*◌, ◌/◌, ◌%◌, ◌^◌, String, Bool, true, false, not, Option, none, some, List, [],
  ◌∷◌, ltb, leb, ◌==◌, ◌=s◌, lookup, assign, if◌then◌else◌,
}
use cofound.Errs.Code.{codes}
use cofound.Errs.Types.{GoError, typed}
use cofound.Errs.Build.{rate_limited}

abbrev pub second : ℕ
second = 1000000000

abbrev pub minute : ℕ
minute = 60000000000

-- RateLimit. `one` is a token.
pub record RateLimit : Type 0 where
  pub rate : ℕ
  pub burst : ℕ
  pub one : ℕ

-- bucket
pub record Bucket : Type 0 where
  pub tokens : ℕ
  pub last : ℕ

-- One shard's map.
abbrev pub Buckets : Type 0
Buckets = List (String × Bucket)

-- memoryRateLimitStore: 64 shards, by their index.
pub record MemoryStore : Type 0 where
  pub shards : ℕ → Buckets
  pub last_sweep : ℕ

-- NewMemoryRateLimitStore. The zero time is long before any other.
unfoldable pub new_store : MemoryStore
new_store = record { shards = λ i. []; last_sweep = 0 }

-- fnv, of a key in ASCII.
unfoldable pub fnv_from : ℕ → List ℕ → ℕ
fnv_from h [] = h
fnv_from h (c ∷ cs) = fnv_from (bit_xor h c * 16777619 % 2 ^ 32) cs

unfoldable pub fnv : String → ℕ
unfolding fnv_from
fnv s = fnv_from 2166136261 (codes s)

unfoldable pub shard_of : String → ℕ
shard_of key = fnv key % 64

unfoldable pub capacity : RateLimit → ℕ
capacity l = if ltb l.burst l.one then l.one else l.burst

-- What Take answers: whether there was a token, and how long until the next one.
abbrev pub Answer : Type 0
Answer = Bool × ℕ

-- Refill for the elapsed time, capped at capacity.
unfoldable pub refill : RateLimit → ℕ → Bucket → Bucket
refill l now b =
    if ltb b.last now
    then record {
      tokens =
          if leb (capacity l) (b.tokens + (now - b.last) * l.rate)
          then capacity l
          else b.tokens + (now - b.last) * l.rate;
      last = now;
    }
    else b

unfoldable pub spend : RateLimit → Bucket → Bucket × Answer
spend l b =
    if leb l.one b.tokens
    then (record b { tokens = b.tokens - l.one }, (true, 0))
    else (b, (false, (l.one - b.tokens) / l.rate))

-- The bucket of a key, new if there is none.
unfoldable pub bucket_at : RateLimit → ℕ → Option Bucket → Bucket
bucket_at l now none = record { tokens = capacity l; last = now }
bucket_at l now (some b) = b

-- What Take does to a key's bucket.
unfoldable pub use_bucket : RateLimit → ℕ → Option Bucket → Bucket × Answer
unfolding refill spend bucket_at
use_bucket l now o = spend l (refill l now (bucket_at l now o))

unfoldable pub put_bucket : String → Bucket → MemoryStore → MemoryStore
unfolding assign
put_bucket k b s = record s {
  shards = λ i. if i == shard_of k then assign k b (s.shards i) else s.shards i;
}

unfoldable pub find_bucket : String → MemoryStore → Option Bucket
find_bucket k s = lookup k (s.shards (shard_of k))

-- Idle long enough to have refilled twice over, in whole seconds, and a minute at least.
unfoldable pub idle_time : RateLimit → ℕ
idle_time l =
    let idle = 2 * capacity l / (l.rate * second) * second in
    if ltb idle minute then minute else idle

unfoldable pub drop_idle : ℕ → ℕ → Buckets → Buckets
drop_idle idle now [] = []
drop_idle idle now ((k, b) ∷ m) =
    let rest = drop_idle idle now m in if ltb (b.last + idle) now then rest else (k, b) ∷ rest

-- maybeSweep
unfoldable pub maybe_sweep : RateLimit → ℕ → MemoryStore → MemoryStore
unfolding idle_time drop_idle
maybe_sweep l now s =
    if ltb now (s.last_sweep + minute)
    then s
    else record { shards = λ i. drop_idle (idle_time l) now (s.shards i); last_sweep = now }

-- Take
unfoldable pub take : String → RateLimit → ℕ → MemoryStore → MemoryStore × Answer
take k l now s =
    if l.rate == 0
    then (s, (true, 0))
    else let (b, a) = use_bucket l now (find_bucket k s) in
      (maybe_sweep l now (put_bucket k b s), a)

-- What the middleware does with a request: call the handler, or refuse it.
pub data Verdict : Type 0 where
  served : Verdict
  refused : GoError → Verdict

-- RateLimiter.Middleware, for the key of a request.
unfoldable pub limit_request : RateLimit → String → ℕ → MemoryStore → MemoryStore × Verdict
limit_request l key now s =
    if key =s ""
    then (s, served)
    else let (t, (allowed, retry)) = take key l now s in
      if allowed
      then (t, served)
      else (t, refused (typed (rate_limited (if ltb retry second then second else retry))))

-- KeyByIP: the peer that the ClientIP middleware resolved, or the host of the connection, empty when
-- there is none.
unfoldable pub key_by_ip : Option String → String → String
key_by_ip (some ip) host = "ip:" ++ ip
key_by_ip none host = if host =s "" then "ip:unknown" else "ip:" ++ host

-- KeyByOrg
unfoldable pub key_by_org : String → Option String → String → String
unfolding key_by_ip
key_by_org org peer host = if org =s "" then key_by_ip peer host else "org:" ++ org

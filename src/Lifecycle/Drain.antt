-- ===== src/Lifecycle/Drain.antt =====
-- packages/chassis/lifecycle/drain.go: long requests, and the wait for them. Each method holds the
-- mutex for the whole of its change, so a run is a sequence of calls. A nil Drain is left out.
pub mod Counted
pub mod Stops
use cofound.Prelude.{
  ℕ, zero, suc, ◌+◌, ◌-◌, String, Bool, true, false, Option, none, some, List, [], ◌∷◌, ◌++◌, leb,
  ◌==◌, ◌=s◌, length, lookup, if◌then◌else◌,
}

-- What Enter hands out: a release function, with the state of its sync.Once.
pub record Handle : Type 0 where
  pub kind : String
  pub released : Bool

-- Drain, with the handles that are out. A waiter's channel is a number, and `woken` are the
-- channels that have been closed; `closed` is the channel that Draining returns.
pub record Drain : Type 0 where
  pub active : List (String × ℕ)
  pub total : ℕ
  pub waiters : List ℕ
  pub begun : Bool
  pub closed : Bool
  pub handles : List Handle
  pub next_waiter : ℕ
  pub woken : List ℕ

-- NewDrain
unfoldable pub new_drain : Drain
new_drain = record {
  active = [];
  total = 0;
  waiters = [];
  begun = false;
  closed = false;
  handles = [];
  next_waiter = 0;
  woken = [];
}

-- `m[k]`, with 0 for a missing key.
unfoldable pub get : String → List (String × ℕ) → ℕ
get k m = elim (lookup k m) [ none ↦ 0 | some n ↦ n ]

-- `m[k] = n`
unfoldable pub set : String → ℕ → List (String × ℕ) → List (String × ℕ)
set k n [] = (k, n) ∷ []
set k n ((j, v) ∷ m) = if j =s k then (k, n) ∷ m else (j, v) ∷ set k n m

-- `delete(m, k)`
unfoldable pub remove : String → List (String × ℕ) → List (String × ℕ)
remove k [] = []
remove k ((j, v) ∷ m) = let rest = remove k m in if j =s k then rest else (j, v) ∷ rest

-- IsDraining
unfoldable pub is_draining : Drain → Bool
is_draining d = d.begun

-- Enter; the number of the handle, or none when draining has begun.
unfoldable pub enter : String → Drain → Drain × Option ℕ
enter kind d = if d.begun then (d, none) else (
  record d {
    active = set kind (get kind d.active + 1) d.active;
    total = d.total + 1;
    handles = d.handles ++ record { kind = kind; released = false } ∷ [];
  },
  some (length d.handles),
)

unfoldable pub handle_at : ℕ → List Handle → Option Handle
handle_at i [] = none
handle_at zero (h ∷ hs) = some h
handle_at (suc i) (h ∷ hs) = handle_at i hs

unfoldable pub mark : ℕ → List Handle → List Handle
mark i [] = []
mark zero (h ∷ hs) = record h { released = true } ∷ hs
mark (suc i) (h ∷ hs) = h ∷ mark i hs

-- `active[kind]--`, and the delete at zero. A count of the source is never below one here.
unfoldable pub leave : String → List (String × ℕ) → List (String × ℕ)
leave kind m = if leb (get kind m) 1 then remove kind m else set kind (get kind m - 1) m

-- The body of release, under its Once; `d.total--` reaches zero from one.
unfoldable pub do_release : ℕ → String → Drain → Drain
unfolding leave
do_release i kind d =
    let wake = d.total == 1 in
    record d {
      active = leave kind d.active;
      total = d.total - 1;
      handles = mark i d.handles;
      woken = if wake then d.woken ++ d.waiters else d.woken;
      waiters = if wake then [] else d.waiters;
    }

-- The release function of a handle.
unfoldable pub release : ℕ → Drain → Drain
release i d = elim (handle_at i d.handles) [
  | none ↦ d
  | some h ↦ if h.released then d else do_release i h.kind d
]

-- Begin
unfoldable pub begin : Drain → Drain
begin d = record d { begun = true; closed = true }

-- Wait up to its select: the channel that it waits on, or none when nothing is active.
unfoldable pub wait : Drain → Drain × Option ℕ
wait d = if d.total == 0 then (d, none) else (
  record d { waiters = d.waiters ++ d.next_waiter ∷ []; next_waiter = d.next_waiter + 1 },
  some d.next_waiter,
)

-- One call, of any of the goroutines.
pub data Call : Type 0 where
  enters : String → Call
  releases : ℕ → Call
  begins waits : Call

unfoldable pub step : Call → Drain → Drain
step (enters kind) d = (enter kind d).0
step (releases i) d = release i d
step begins d = begin d
step waits d = (wait d).0

unfoldable pub run : List Call → Drain → Drain
unfolding step
run [] d = d
run (c ∷ cs) d = run cs (step c d)

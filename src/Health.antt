-- ===== src/Health.antt =====
-- packages/chassis/health/health.go: the registry of readiness probes. What Check gives is an
-- argument, the text of its error or none; a time is in nanoseconds, 0 the zero time. The mutex is
-- held for the whole of a change, so the polls, which run side by side, are calls in some order. Log
-- lines are left out.
pub mod Kept
pub mod Polled
pub mod Ready
pub mod Failing
use Prim.Native.Nat.{Ordering}
use Prim.Native.String.{compare, ◌++◌}
use cofound.Prelude.{
  ℕ, ◌+◌, String, Bool, true, false, not, ◌&&◌, ◌||◌, Option, none, some, List, [], ◌∷◌, ◌==◌, ◌=s◌,
  ltb, is_none, map, lookup, assign, if◌then◌else◌,
}

pub data State : Type 0 where
  up : State
  down : State
  unknown : State

pub data Criticality : Type 0 where
  critical : Criticality
  degrading : Criticality

-- Probe; whether its Check is there.
pub record Probe : Type 0 where
  pub name : String
  pub criticality : Criticality
  pub has_check : Bool

-- Result
pub record Result : Type 0 where
  pub name : String
  pub criticality : Criticality
  pub state : State
  pub latency : ℕ
  pub checked_at : ℕ
  pub since : ℕ
  pub consecutive : ℕ
  pub cause : Option String

-- Options
pub record Options : Type 0 where
  pub interval : ℕ
  pub timeout : ℕ
  pub stale_after : ℕ

-- Registry
pub record Registry : Type 0 where
  pub opts : Options
  pub started : Bool
  pub probes : List Probe
  pub results : List (String × Result)
  pub draining : Bool

abbrev or_default : ℕ → ℕ → ℕ
or_default n d = if n == 0 then d else n

-- New
unfoldable pub new_registry : Options → Registry
new_registry o = record {
  opts = record {
    interval = or_default o.interval 2000000000;
    timeout = or_default o.timeout 1000000000;
    stale_after = or_default o.stale_after 10000000000;
  };
  started = false;
  probes = [];
  results = [];
  draining = false;
}

unfoldable pub has_name : String → List Probe → Bool
has_name n [] = false
has_name n (p ∷ ps) = if p.name =s n then true else has_name n ps

-- Register returns, or panics with a text.
pub data Registered : Type 0 where
  accepted : Registry → Registered
  panics : String → Registered

-- Register appends at the end.
unfoldable pub append_probe : Probe → List Probe → List Probe
append_probe p [] = p ∷ []
append_probe p (q ∷ qs) = q ∷ append_probe p qs

unfoldable pub register : Probe → Registry → Registered
unfolding has_name append_probe
register p r =
    if r.started
    then panics "health: Register after Start"
    else if p.name =s ""
    then panics "health: probe needs a name"
    else if not p.has_check
    then panics ("health: probe " ++ (p.name ++ " needs a Check"))
    else if has_name p.name r.probes
    then panics ("health: duplicate probe " ++ p.name)
    else accepted (record r { probes = append_probe p r.probes })

-- What Start does before its first poll.
unfoldable pub start : Registry → Registry
start r = record r { started = true }

abbrev pub is_same : State → State → Bool
is_same up up = true
is_same down down = true
is_same unknown unknown = true
is_same s t = false

abbrev pub state_of : Option String → State
state_of none = up
state_of (some e) = down

-- Whether the state differs from that of the result before, whose zero value has none of the three.
unfoldable pub transitioned : Option Result → State → Bool
transitioned none s = true
transitioned (some prev) s = not (is_same prev.state s)

abbrev pub since_of : Option Result → ℕ
since_of none = 0
since_of (some prev) = prev.since

abbrev pub consecutive_of : Option Result → ℕ
consecutive_of none = 0
consecutive_of (some prev) = prev.consecutive

-- The result that a poll stores over the one before.
unfoldable pub next_result : Probe → Option String → ℕ → ℕ → Option Result → Result
unfolding transitioned
next_result p e latency now prev =
    let fresh = transitioned prev (state_of e) || since_of prev == 0 in
    record {
      name = p.name;
      criticality = p.criticality;
      state = state_of e;
      latency = latency;
      checked_at = now;
      since = if fresh then now else since_of prev;
      consecutive = if fresh then 1 else consecutive_of prev + 1;
      cause = e;
    }

-- poll, from the moment it has the mutex.
unfoldable pub poll : Probe → Option String → ℕ → ℕ → Registry → Registry
poll p e latency now r = record r {
  results = assign p.name (next_result p e latency now (lookup p.name r.results)) r.results;
}

-- SetDraining
unfoldable pub set_draining : Registry → Registry
set_draining r = record r { draining = true }

-- The result of a probe in a snapshot: unknown before its first poll, and when it is stale.
unfoldable pub seen : Registry → ℕ → Probe → Result
seen r now p = elim (lookup p.name r.results) [
  | none ↦ record {
    name = p.name;
    criticality = p.criticality;
    state = unknown;
    latency = 0;
    checked_at = 0;
    since = 0;
    consecutive = 0;
    cause = none;
  }
  | some res ↦
      if ltb (res.checked_at + r.opts.stale_after) now
      then record res { state = unknown; cause = some "probe result is stale" }
      else res
]

unfoldable pub is_before : Result → Result → Bool
is_before x y = elim (compare x.name y.name) [ Ordering.lt ↦ true | _ ↦ false ]

-- sort.Slice by name.
unfoldable pub insert : Result → List Result → List Result
insert x [] = x ∷ []
insert x (y ∷ ys) = let rest = insert x ys in if is_before y x then y ∷ rest else x ∷ y ∷ ys

unfoldable pub sort : List Result → List Result
unfolding insert
sort [] = []
sort (x ∷ xs) = insert x (sort xs)

-- Snapshot
pub record Snapshot : Type 0 where
  pub state : State
  pub draining : Bool
  pub results : List Result
  pub at : ℕ

abbrev pub is_critical : Criticality → Bool
is_critical critical = true
is_critical degrading = false

-- The result keeps the process from being ready.
unfoldable pub blocks : Result → Bool
blocks x = not (is_same x.state up) && is_critical x.criticality

unfoldable pub any_blocks : List Result → Bool
unfolding blocks
any_blocks [] = false
any_blocks (x ∷ xs) = blocks x || any_blocks xs

unfoldable pub snapshot : Registry → ℕ → Snapshot
unfolding seen sort any_blocks
snapshot r now =
    let results = sort (map (seen r now) r.probes) in
    record {
      state = if r.draining then down else if any_blocks results then down else up;
      draining = r.draining;
      results = results;
      at = now;
    }

unfoldable pub failing_names : List Result → List String
failing_names [] = []
failing_names (x ∷ xs) =
    let rest = failing_names xs in if is_same x.state up then rest else x.name ∷ rest

-- Snapshot.Failing
unfoldable pub failing : Snapshot → List String
unfolding failing_names
failing s = failing_names s.results

-- The calls on a registry; a poll is of a probe that is registered.
pub data Call : Type 0 where
  registers : Probe → Call
  starts : Call
  polls : Probe → Option String → ℕ → ℕ → Call
  drains : Call

-- A Register that panics leaves the registry as it was.
unfoldable pub step : Call → Registry → Registry
unfolding register start poll set_draining
step (registers p) r = elim (register p r) [ accepted s ↦ s | panics why ↦ r ]
step starts r = start r
step (polls p e latency now) r = poll p e latency now r
step drains r = set_draining r

unfoldable pub run : List Call → Registry → Registry
unfolding step
run [] r = r
run (c ∷ cs) r = run cs (step c r)

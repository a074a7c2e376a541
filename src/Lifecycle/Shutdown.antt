-- ===== src/Lifecycle/Shutdown.antt =====
-- packages/chassis/lifecycle/shutdown.go: the sequence of a shutdown, on the registry of probes and the
-- Drain. What happens meanwhile is an argument: the calls on the Drain until a phase ends, and what the
-- server and the exporter answer. Durations and log lines are left out, and
-- so are calls on the Drain after its phase.
pub mod Clean
use cofound.Prelude.{
  ℕ, String, Bool, true, false, ◌&&◌, Option, none, some, List, [], ◌∷◌, ◌++◌, ltb, ◌==◌, is_none,
  if◌then◌else◌,
}
use cofound.Health.{Registry, set_draining}
use cofound.Lifecycle.Drain.{Drain, Call, begin, wait, run}

pub data Phase : Type 0 where
  deregister : Phase
  drain : Phase
  shutdown : Phase
  close : Phase
  telemetry : Phase

-- Step
pub record Step : Type 0 where
  pub phase : Phase
  pub cause : Option String
  pub forced : Bool

-- Report
pub record Report : Type 0 where
  pub steps : List Step
  pub clean : Bool
  pub at_start : List (String × ℕ)
  pub remaining : List (String × ℕ)

-- Sequence: which of its parts are there.
pub record Sequence : Type 0 where
  pub has_server : Bool
  pub has_drain : Bool
  pub has_readiness : Bool
  pub has_telemetry : Bool
  pub deregister_delay : ℕ

-- The calls of others before Begin, between Begin and Wait, and until Wait ends or its time is up.
pub record Meanwhile : Type 0 where
  pub before : List Call
  pub between : List Call
  pub during : List Call
  pub shutdown_err : Option String
  pub close_err : Option String
  pub telemetry_err : Option String

pub data Act : Type 0 where
  flips : Act
  delays : ℕ → Act
  begins_drain : Act
  waits_drain : Act
  shuts_server : Act
  closes_server : Act
  sends_telemetry : Act

-- What the sequence acts on, with its acts in their order.
pub record World : Type 0 where
  pub registry : Registry
  pub drained : Drain
  pub acts : List Act

abbrev pub act : Bool → Act → World → World
act b a w = if b then record w { acts = w.acts ++ a ∷ [] } else w

-- Phase 0
unfoldable pub run_deregister : Sequence → Meanwhile → World → World
run_deregister s m w =
    let flipped =
      act s.has_readiness flips
        (record w { registry = if s.has_readiness then set_draining w.registry else w.registry }) in
    let delayed = act (ltb 0 s.deregister_delay) (delays s.deregister_delay) flipped in
    record delayed { drained = run m.before delayed.drained }

unfoldable pub is_listed : ℕ → List ℕ → Bool
is_listed w [] = false
is_listed w (v ∷ vs) = if v == w then true else is_listed w vs

-- How Wait ends on the channel it got: at once, with the channel closed, or with its time up.
unfoldable pub wait_err : Option ℕ → Drain → Option String
unfolding is_listed
wait_err none d = none
wait_err (some w) d = if is_listed w d.woken then none else some "context deadline exceeded"

-- Begin and Wait, with the calls of others.
unfoldable pub drain_all : Meanwhile → Drain → Drain × Option String
unfolding wait_err
drain_all m d =
    let (e, o) = wait (run m.between (begin d)) in
    let after = run m.during e in (after, wait_err o after)

-- Phase 1
unfoldable pub run_drain : Sequence → Meanwhile → World → World × Option String
unfolding drain_all
run_drain s m w =
    if s.has_drain
    then (
      act true waits_drain
          (act true begins_drain (record w { drained = (drain_all m w.drained).0 })),
      (drain_all m w.drained).1,
    )
    else (w, none)

unfoldable pub close_steps : Bool → Option String → List Step
close_steps must e = if must then record { phase = close; cause = e; forced = true } ∷ [] else []

unfoldable pub telemetry_steps : Bool → Option String → List Step
telemetry_steps there e =
    if there then record { phase = telemetry; cause = e; forced = false } ∷ [] else []

-- Run
unfoldable pub run_sequence : Sequence → Meanwhile → World → World × Report
unfolding run_deregister run_drain close_steps telemetry_steps
run_sequence s m w =
    let (v, drain_err) = run_drain s m (run_deregister s m w) in
    let shut_err = if s.has_server then m.shutdown_err else none in
    let failed = if is_none shut_err then false else s.has_server in
    (
      act s.has_telemetry sends_telemetry
          (act failed closes_server (act s.has_server shuts_server v)),
      record {
        steps =
            record { phase = deregister; cause = none; forced = false }
            ∷ record { phase = drain; cause = drain_err; forced = false }
            ∷ record { phase = shutdown; cause = shut_err; forced = false }
            ∷ (close_steps failed m.close_err ++ telemetry_steps s.has_telemetry m.telemetry_err);
        clean = is_none drain_err && is_none shut_err;
        at_start = if s.has_drain then w.drained.active else [];
        remaining = if s.has_drain then v.drained.active else [];
      },
    )

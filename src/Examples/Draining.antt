-- ===== src/Examples/Draining.antt =====
-- packages/chassis/lifecycle: a Drain with two streams and a waiter, and a shutdown with one stream.
use cofound.Prelude.{
  ℕ, zero, suc, ◌<◌, ◌≡◌, refl, inl, inr, true, none, some, List, [], ◌∷◌, In, length, arith,
}
use cofound.Lifecycle.Drain.{
  new_drain, Call, step, run, enters, releases, begins, waits, enter, begin, wait,
}
use cofound.Lifecycle.Drain.Counted.{IsCounted, run-IsCounted}
use cofound.Lifecycle.Drain.Stops.{run-drains}
use cofound.Health.{new_registry, snapshot, down}
use cofound.Lifecycle.Shutdown.{Sequence, Meanwhile, World, run_sequence}
use cofound.Lifecycle.Shutdown.Clean.{run_sequence-clean}

abbrev morning : List Call
morning = enters "sse" ∷ enters "sse" ∷ waits ∷ begins ∷ []

run-IsCounted_example : IsCounted (run morning new_drain)
run-IsCounted_example = run-IsCounted morning

abbrev evening : List Call
evening = releases 1 ∷ enters "sse" ∷ releases 0 ∷ releases 1 ∷ []

draining : (run morning new_drain).begun ≡ true
unfolding run step enter begin wait new_drain
draining = refl

two_out : length (run morning new_drain).handles ≡ 2
unfolding run step enter begin wait new_drain
two_out = refl

all_released : (i : ℕ) → i < length (run morning new_drain).handles → In (releases i) evening
all_released zero h = inr (inr (inl refl))
all_released (suc zero) h = inl refl
all_released (suc (suc i)) h = absurd (omega (arith, two_out))

run-drains_example :
    ((run evening (run morning new_drain)).total ≡ 0)
    × (length (run evening (run morning new_drain)).handles
        ≡ length (run morning new_drain).handles)
    × ((w : ℕ)
        → w < (run evening (run morning new_drain)).next_waiter
        → In w (run evening (run morning new_drain)).woken)
run-drains_example =
    run-drains evening (run morning new_drain) (run-IsCounted morning) draining all_released

abbrev sequence : Sequence
sequence = record {
  has_server = true;
  has_drain = true;
  has_readiness = true;
  has_telemetry = true;
  deregister_delay = 5;
}

abbrev meanwhile : Meanwhile
meanwhile = record {
  before = enters "sse" ∷ [];
  between = [];
  during = enters "sse" ∷ releases 0 ∷ [];
  shutdown_err = none;
  close_err = none;
  telemetry_err = some "collector is gone";
}

abbrev world : World
world = record {
  registry = new_registry (record { interval = 0; timeout = 0; stale_after = 0 });
  drained = run [] new_drain;
  acts = [];
}

one_out : length (run meanwhile.before world.drained).handles ≡ 1
unfolding run step enter new_drain
one_out = refl

one_released :
    (i : ℕ)
    → i < length (run meanwhile.before world.drained).handles
    → In (releases i) (waits ∷ meanwhile.during)
one_released zero h = inr (inr (inl refl))
one_released (suc i) h = absurd (omega (arith, one_out))

run_sequence-clean_example :
    ((run_sequence sequence meanwhile world).1.clean ≡ true)
    × ((run_sequence sequence meanwhile world).0.drained.total ≡ 0)
    × ((snapshot (run_sequence sequence meanwhile world).0.registry 9).state ≡ down)
run_sequence-clean_example =
    run_sequence-clean sequence meanwhile world 9 refl refl refl (run-IsCounted []) one_released

-- ===== src/Examples/Probes.antt =====
-- packages/chassis/health: a critical probe that is up and a degrading one that is down.
use cofound.Prelude.{◌≡◌, ◌↔◌, refl, inl, inr, true, none, some, List, [], ◌∷◌, arith, lookup}
use cofound.Health.{
  Options, Probe, up, critical, degrading, Registry, new_registry, Call, registers, starts, polls,
  run, snapshot, step, register, start, poll, has_name, append_probe,
}
use cofound.Health.Kept.{IsRun}
use cofound.Health.Ready.{IsReady, snapshot-IsReady}
use cofound.Health.Polled.{Describes, polls_of, polled-Describes}

abbrev options : Options
options = record { interval = 0; timeout = 0; stale_after = 0 }

abbrev database : Probe
database = record { name = "db"; criticality = critical; has_check = true }

abbrev cache : Probe
cache = record { name = "cache"; criticality = degrading; has_check = true }

abbrev calls : List Call
calls =
    registers database
    ∷ registers cache
    ∷ starts
    ∷ polls database none 5 100
    ∷ polls cache (some "refused") 5 101
    ∷ polls cache (some "refused") 5 200
    ∷ []

abbrev registry : Registry
registry = run calls (new_registry options)

calls-IsRun : IsRun calls (new_registry options)
unfolding IsRun run step register start poll has_name append_probe new_registry
calls-IsRun = (
  tt,
  (
    tt,
    (
      tt,
      (
        (inl refl, omega arith),
        ((inr (inl refl), omega arith), ((inr (inl refl), omega arith), tt)),
      ),
    ),
  ),
)

snapshot-IsReady_example : ((snapshot registry 300).state ≡ up) ↔ IsReady calls registry 300
snapshot-IsReady_example = snapshot-IsReady options calls 300 calls-IsRun

polled-Describes_example : Describes (polls_of "cache" calls []) (lookup "cache" registry.results)
polled-Describes_example = polled-Describes options calls "cache" calls-IsRun

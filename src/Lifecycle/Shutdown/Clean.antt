-- ===== src/Lifecycle/Shutdown/Clean.antt =====
-- A shutdown in which the open requests end.
use cofound.Prelude.{
  ℕ, ◌≤◌, ◌<◌, ◌≡◌, refl, subst, ap, ◌∙◌, inl, inr, Bool, true, false, ◌&&◌, Option, none, some,
  is_none, List, [], ◌∷◌, ◌++◌, In, length, arith, ltb, String, Option-cases, Bool-cases,
  if◌then◌else◌,
}
use cofound.Health.{Registry, down, set_draining, snapshot}
use cofound.Lifecycle.Drain.{
  Drain, Call, begins, releases, enters, waits, begin, do_release, handle_at, enter, wait, step,
  release, run,
}
use cofound.Lifecycle.Drain.Counted.{IsCounted, run-IsCounted_from}
use cofound.Lifecycle.Drain.Stops.{run-drains}
use cofound.Lifecycle.Shutdown.{
  Sequence, Meanwhile, World, Act, flips, delays, shuts_server, closes_server, sends_telemetry, act,
  run_deregister, is_listed, wait_err, drain_all, run_drain, run_sequence,
}

run-append : (xs ys : List Call) (d : Drain) → run (xs ++ ys) d ≡ run ys (run xs d)
unfolding run
run-append [] ys d = refl
run-append (x ∷ xs) ys d = run-append xs ys (step x d)

waits_first : (ys : List Call) (d : Drain) → run (waits ∷ ys) d ≡ run ys (wait d).0
unfolding run step
waits_first ys d = refl

begins_only : (d : Drain) → run (begins ∷ []) d ≡ begin d
unfolding run step
begins_only d = refl

begun-IsCounted : (d : Drain) → IsCounted d → IsCounted (begin d)
begun-IsCounted d c = subst IsCounted (begins_only d) (run-IsCounted_from (begins ∷ []) d c)

listed_in : (w : ℕ) (vs : List ℕ) → In w vs → is_listed w vs ≡ true
unfolding is_listed
listed_in w [] h = elim h [ ]
listed_in w (v ∷ vs) (inl e) = ground (arith, e)
listed_in w (v ∷ vs) (inr h) = ground (arith, listed_in w vs h)

-- Channels are numbered upwards.
step_next : (c : Call) (d : Drain) → d.next_waiter ≤ (step c d).next_waiter
unfolding step enter release do_release begin wait
step_next (enters kind) d = ground arith
step_next (releases i) d = elim (Option-cases (handle_at i d.handles)) [
  | inl absent ↦ rw (absent, release) (omega arith)
  | inr (h, found) ↦ elim (Bool-cases h.released) [
    | inl done ↦ rw (found, release, done) (omega arith)
    | inr out ↦ rw (found, release, out) (omega arith)
  ]
]
step_next begins d = omega arith
step_next waits d = ground arith

run_next : (cs : List Call) (d : Drain) → d.next_waiter ≤ (run cs d).next_waiter
unfolding run
run_next [] d = omega arith
run_next (c ∷ cs) d = omega (arith, step_next c d, run_next cs (step c d))

wait_next : (d : Drain) (w : ℕ) → (wait d).1 ≡ some w → w < (wait d).0.next_waiter
unfolding wait
wait_next d w e = ground arith

-- Begin, the calls until Wait, Wait and the calls after it are one run on the Drain that has begun.
drained_after :
    (m : Meanwhile) (d : Drain)
    → IsCounted d
    → ((i : ℕ) → i < length d.handles → In (releases i) (m.between ++ waits ∷ m.during))
    → let after = run m.during (wait (run m.between (begin d))).0 in
      (after.total ≡ 0)
      × (length after.handles ≡ length (begin d).handles)
      × ((w : ℕ) → w < after.next_waiter → In w after.woken)
unfolding begin
drained_after m d c all =
    subst
      (λ x.
        (x.total ≡ 0)
        × (length x.handles ≡ length (begin d).handles)
        × ((w : ℕ) → w < x.next_waiter → In w x.woken))
      (run-append m.between (waits ∷ m.during) (begin d)
        ∙ waits_first m.during (run m.between (begin d)))
      (run-drains (m.between ++ waits ∷ m.during) (begin d) (begun-IsCounted d c) refl all)

-- A caller of Wait whose requests all end is woken.
drain_all-clean :
    (m : Meanwhile) (d : Drain)
    → IsCounted d
    → ((i : ℕ) → i < length d.handles → In (releases i) (m.between ++ waits ∷ m.during))
    → ((drain_all m d).0.total ≡ 0) × ((drain_all m d).1 ≡ none)
unfolding drain_all wait_err
drain_all-clean m d c all =
    let asked = run m.between (begin d) in
    let (none_left, same, woken) = drained_after m d c all in
    (
      none_left,
      elim (Option-cases (wait asked).1) [
        | inl idle ↦ rw idle refl
        | inr (w, waits_on) ↦
            let heard =
              woken w
                (omega (arith, wait_next asked w waits_on, run_next m.during (wait asked).0)) in
            rw (waits_on, listed_in w (run m.during (wait asked).0).woken heard) refl
      ],
    )

act_drained : (b : Bool) (a : Act) (w : World) → (act b a w).drained ≡ w.drained
act_drained true a w = refl
act_drained false a w = refl

act_registry : (b : Bool) (a : Act) (w : World) → (act b a w).registry ≡ w.registry
act_registry true a w = refl
act_registry false a w = refl

deregistered :
    (s : Sequence) (m : Meanwhile) (w : World)
    → s.has_readiness ≡ true
    → ((run_deregister s m w).drained ≡ run m.before w.drained)
      × ((run_deregister s m w).registry ≡ set_draining w.registry)
unfolding run_deregister
deregistered s m w r =
    let flipped : World = record w {
      registry = if s.has_readiness then set_draining w.registry else w.registry;
    } in
    let delayed =
      act (ltb 0 s.deregister_delay) (delays s.deregister_delay)
        (act s.has_readiness flips flipped) in
    let waited =
      act_drained (ltb 0 s.deregister_delay) (delays s.deregister_delay)
        (act s.has_readiness flips flipped) in
    let kept =
      act_registry (ltb 0 s.deregister_delay) (delays s.deregister_delay)
        (act s.has_readiness flips flipped) in
    (
      ap (run m.before) (waited ∙ act_drained s.has_readiness flips flipped),
      kept ∙ (act_registry s.has_readiness flips flipped ∙ rw r refl),
    )

drained_by :
    (s : Sequence) (m : Meanwhile) (w : World)
    → s.has_drain ≡ true
    → ((run_drain s m w).1 ≡ (drain_all m w.drained).1)
      × ((run_drain s m w).0.drained ≡ (drain_all m w.drained).0)
      × ((run_drain s m w).0.registry ≡ w.registry)
unfolding run_drain
drained_by s m w d = rw d (refl, refl, refl)

both_true : {a b : Bool} → a ≡ true → b ≡ true → (a && b) ≡ true
both_true h k = ground arith

stopped : (b : Bool) (o : Option String) → o ≡ none → is_none (if b then o else none) ≡ true
stopped true o e = rw e refl
stopped false o e = refl

last_acts_keep :
    (t f b : Bool) (w : World)
    → ((act t sends_telemetry (act f closes_server (act b shuts_server w))).drained ≡ w.drained)
      × ((act t sends_telemetry (act f closes_server (act b shuts_server w))).registry ≡ w.registry)
last_acts_keep t f b w =
    let shut = act b shuts_server w in
    let closed = act f closes_server shut in
    (
      act_drained t sends_telemetry closed
          ∙ (act_drained f closes_server shut ∙ act_drained b shuts_server w),
      act_registry t sends_telemetry closed
          ∙ (act_registry f closes_server shut ∙ act_registry b shuts_server w),
    )

draining_down : (r : Registry) (now : ℕ) → (snapshot (set_draining r) now).state ≡ down
unfolding snapshot set_draining
draining_down r now = refl

-- A shutdown with a Drain and a registry, in which every request that was open when Begin was called
-- ends in time and the server stops without an error, is clean: no request is left when the drain
-- ends, and every later snapshot of the registry says down.
pub run_sequence-clean :
    (s : Sequence) (m : Meanwhile) (w : World) (now : ℕ)
    → s.has_drain ≡ true
    → s.has_readiness ≡ true
    → m.shutdown_err ≡ none
    → IsCounted w.drained
    → ((i : ℕ)
        → i < length (run m.before w.drained).handles
        → In (releases i) (m.between ++ waits ∷ m.during))
    → ((run_sequence s m w).1.clean ≡ true)
      × ((run_sequence s m w).0.drained.total ≡ 0)
      × ((snapshot (run_sequence s m w).0.registry now).state ≡ down)
unfolding run_sequence
run_sequence-clean s m w now d r e c all =
    let (before, flipped) = deregistered s m w r in
    let (ended, left, same) = drained_by s m (run_deregister s m w) d in
    let (none_left, woken) =
      drain_all-clean m (run m.before w.drained) (run-IsCounted_from m.before w.drained c) all in
    let stop = if s.has_server then m.shutdown_err else none in
    let (kept, registry) =
      last_acts_keep s.has_telemetry (if is_none stop then false else s.has_server) s.has_server
        (run_drain s m (run_deregister s m w)).0 in
    (
      both_true (ap is_none (ended ∙ (ap (λ x. (drain_all m x).1) before ∙ woken)))
          (stopped s.has_server m.shutdown_err e),
      ap (λ x. x.total) (kept ∙ (left ∙ ap (λ x. (drain_all m x).0) before)) ∙ none_left,
      ap (λ x. (snapshot x now).state) (registry ∙ (same ∙ flipped)) ∙ draining_down w.registry now,
    )

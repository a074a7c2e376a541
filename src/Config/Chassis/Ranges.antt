-- ===== src/Config/Chassis/Ranges.antt =====
-- packages/chassis/config/chassis.go: the ranges of the durations that Load accepts.
use cofound.Prelude.{
  ℕ, ◌+◌, ◌*◌, ◌≤◌, String, ◌≡◌, refl, inl, inr, true, Option, none, some, ◌=s◌, arith, Bool-cases,
  Option-cases, subst,
}
use cofound.Config.Parse.{ℤ, pos, negsuc}
use cofound.Config.Loader.{
  Host, Loader, new_loader, is_within, raw, judge_duration, Judged, fits, fails, judged_as,
  settle_as, read_as, read_duration, text,
}
use cofound.Config.Chassis.{
  ChassisHost, Chassis, Defaults, Shutdown, second, minute, bind, bind_shutdown, deregister_default,
}
use cofound.Config.Chassis.Rules.{phases, loaded, load_chassis}
use cofound.Config.Chassis.Accepted.{load_chassis-IsSound}

-- A duration of at least `low` and at most `high` nanoseconds.
abbrev pub Spans : ℕ → ℕ → ℤ → Type 0
Spans low high n = (k : ℕ) × (n ≡ pos k) × (low ≤ k) × (k ≤ high)

within-Spans : (low high : ℕ) (n : ℤ) → is_within (pos low) (pos high) n ≡ true → Spans low high n
within-Spans low high (pos k) e = (k, refl, ground (arith), ground (arith))
within-Spans low high (negsuc k) e = absurd (ground arith)

module _ (h : Host) (low high : ℕ) where
  judge_duration-fits :
      (s : String) (n : ℤ)
      → judge_duration h (pos low) (pos high) s ≡ fits n
      → is_within (pos low) (pos high) n ≡ true
  unfolding judge_duration
  judge_duration-fits s n e = elim (Option-cases (h.parse_duration s)) [
    | inl m ↦ absurd (ground arith)
    | inr (k, m) ↦ ground arith
  ]

  judged_as-Spans :
      (key : String) (d : ℤ) (j : Judged ℤ) (l : Loader)
      → Spans low high d
      → ((n : ℤ) → j ≡ fits n → Spans low high n)
      → Spans low high (judged_as (λ n. text (h.show_duration n)) key d j l).1
  unfolding judged_as
  judged_as-Spans key d (fits v) l def good = good v refl
  judged_as-Spans key d (fails e) l def good = def

  settle_as-Spans :
      (key : String) (d : ℤ) (o : Option String) (l : Loader)
      → Spans low high d
      → Spans low high
          (settle_as
            (λ n. text (h.show_duration n))
            (judge_duration h (pos low) (pos high))
            key
            d
            o
            l).1
  unfolding settle_as
  settle_as-Spans key d none l def = def
  settle_as-Spans key d (some s) l def =
      judged_as-Spans key d (judge_duration h (pos low) (pos high) s) l def
        λ n e. within-Spans low high n (judge_duration-fits s n e)

  -- Duration gives its default or what lies in the range.
  read_duration-Spans :
      (key : String) (d : ℤ) (l : Loader)
      → Spans low high d
      → Spans low high (read_duration h key d (pos low) (pos high) l).1
  unfolding read_duration read_as
  read_duration-Spans key d l def = settle_as-Spans key d (raw h key l).1 (raw h key l).0 def

-- The shutdown's durations, as numbers, and its budget.
pub record FitsBudget (s : Shutdown) : Type 0 where
  pub deregister : Spans 0 minute s.deregister_delay
  pub drain : Spans 0 (10 * minute) s.drain_timeout
  pub server : Spans second (5 * minute) s.server_timeout
  pub telemetry : Spans second minute s.telemetry_timeout
  pub budget : Spans second (15 * minute) s.budget

deregister-Spans : (env : String) → Spans 0 minute (deregister_default env)
deregister-Spans env = elim (Bool-cases (env =s "development")) [
  | inl b ↦ (0, ground (arith), omega (arith), omega (arith))
  | inr b ↦ (3 * second, ground (arith), omega (arith), omega (arith))
]

module _ (h : ChassisHost) where
  bind_shutdown-FitsBudget : (env : String) (l : Loader) → FitsBudget (bind_shutdown h env l).1
  unfolding bind_shutdown
  bind_shutdown-FitsBudget env l = record {
    deregister = read_duration-Spans h.base 0 minute _ _ _ (deregister-Spans env);
    drain =
        read_duration-Spans h.base 0 (10 * minute) _ _ _
          (10 * second, refl, omega (arith), omega (arith));
    server =
        read_duration-Spans h.base second (5 * minute) _ _ _
          (5 * second, refl, omega (arith), omega (arith));
    telemetry =
        read_duration-Spans h.base second minute _ _ _
          (5 * second, refl, omega (arith), omega (arith));
    budget =
        read_duration-Spans h.base second (15 * minute) _ _ _
          (25 * second, refl, omega (arith), omega (arith));
  }

  bind-FitsBudget : (d : Defaults) (l : Loader) → FitsBudget (bind h d l).1.shutdown
  unfolding bind
  bind-FitsBudget d l = bind_shutdown-FitsBudget _ _

  -- In a configuration that Load accepts, the phases of a shutdown are the numbers of nanoseconds
  -- that their ranges allow, and they take together no longer than the budget, which is at most 15
  -- minutes.
  pub load_chassis-budget :
      (d : Defaults) (c : Chassis)
      → load_chassis h d ≡ loaded c
      → FitsBudget c.shutdown
        × ((a b s t m : ℕ) × (c.shutdown.deregister_delay ≡ pos a)
            × (c.shutdown.drain_timeout ≡ pos b)
            × (c.shutdown.server_timeout ≡ pos s)
            × (c.shutdown.telemetry_timeout ≡ pos t)
            × (c.shutdown.budget ≡ pos m)
            × (a + b + s + t ≤ m)
            × (m ≤ 15 * minute))
  unfolding phases
  load_chassis-budget d c e =
      let (was, same, sound) = (load_chassis-IsSound h d c).0 e in
      let fit : FitsBudget c.shutdown =
        subst (λ (x : Chassis). FitsBudget x.shutdown) same (bind-FitsBudget d new_loader) in
      let (a, ea, la, ha) = fit.deregister in
      let (b, eb, lb, hb) = fit.drain in
      let (s, es, ls, hs) = fit.server in
      let (t, et, lt, ht) = fit.telemetry in
      let (m, em, lm, hm) = fit.budget in
      (fit, (a, b, s, t, m, ea, eb, es, et, em, ground (arith, sound.budgeted), hm))

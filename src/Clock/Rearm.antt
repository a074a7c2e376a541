-- ===== src/Clock/Rearm.antt =====
-- The loop of Advance that re-arms a ticker.
use cofound.Prelude.{
  ℕ, zero, suc, ◌+◌, ◌-◌, ◌*◌, ◌≤◌, ◌<◌, ◌≡◌, refl, inl, inr, arith, leb, Bool-cases,
}
use cofound.Clock.{rearm_in, rearm}

-- Any amount of turns that is enough gives the same.
rearm_enough :
    (fuel more now period at : ℕ)
    → 0 < period
    → now < at + fuel
    → fuel ≤ more
    → rearm_in more now period at ≡ rearm_in fuel now period at
unfolding rearm_in
rearm_enough zero zero now period at p h k = refl
rearm_enough zero (suc more) now period at p h k = ground arith
rearm_enough (suc fuel) zero now period at p h k = ground arith
rearm_enough (suc fuel) (suc more) now period at p h k =
    ground (arith, rearm_enough fuel more now period (at + period) p)

rearm_stop : (fuel now period at : ℕ) → now < at → rearm_in fuel now period at ≡ at
unfolding rearm_in
rearm_stop zero now period at h = refl
rearm_stop (suc fuel) now period at h = ground arith

-- The first deadline after now, a number of periods on.
rearm_in-first :
    (fuel now period at : ℕ)
    → 0 < period
    → now < at + fuel
    → (k : ℕ) × (rearm_in fuel now period at ≡ at + k * period)
      × (now < rearm_in fuel now period at)
      × ((at ≤ now) → rearm_in fuel now period at ≤ now + period)
unfolding rearm_in
rearm_in-first zero now period at p h = (0, omega arith, omega arith, λ l. omega arith)
rearm_in-first (suc fuel) now period at p h = elim (Bool-cases (leb at now)) [
  | inl due ↦
      let (k, e, after, bound) = rearm_in-first fuel now period (at + period) p (ground arith) in
      rw due (
        suc k,
        omega (arith, e),
        after,
        λ l. ground (arith, bound, rearm_stop fuel now period (at + period)),
      )
  | inr ahead ↦ rw ahead (0, omega arith, ground arith, λ l. ground arith)
]

-- The loop ends: with a positive period, a turn for each unit of time since the deadline is enough,
-- more change nothing, and it gives the deadline a number of periods on that is the first after now.
pub rearm_in-rearm :
    (fuel now period at : ℕ)
    → 0 < period
    → at ≤ now
    → suc (now - at) ≤ fuel
    → (rearm_in fuel now period at ≡ rearm now period at)
      × (now < rearm now period at)
      × (rearm now period at ≤ now + period)
      × ((k : ℕ) × (rearm now period at ≡ at + k * period))
unfolding rearm
rearm_in-rearm fuel now period at p h l =
    let (k, e, after, bound) = rearm_in-first (suc (now - at)) now period at p (omega arith) in
    (rearm_enough (suc (now - at)) fuel now period at p (omega arith) l, after, bound h, (k, e))

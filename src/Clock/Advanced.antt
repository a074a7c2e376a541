-- ===== src/Clock/Advanced.antt =====
-- What Advance does to the waits.
use cofound.Prelude.{
  ℕ, suc, ◌+◌, ◌*◌, ◌-◌, ◌≤◌, ◌<◌, ◌≡◌, ◌⊎◌, refl, inl, inr, sym, Bool, true, false, Option, none,
  some, List, [], ◌∷◌, In, arith, ltb, leb, ◌==◌, Bool-cases, if◌then◌else◌,
}
use cofound.Clock.{Waiter, Fake, rearm, keep_waiters, fired, offer, fire, advance}
use cofound.Clock.Rearm.{rearm_in-rearm}

abbrev pub has_time : Option ℕ → Bool
has_time none = false
has_time (some t) = true

offer-has_time : (now : ℕ) (o : Option ℕ) → has_time (offer now o) ≡ true
offer-has_time now none = refl
offer-has_time now (some t) = refl

-- A channel that has a time keeps it, and one that is fired has one.
fire_keeps :
    (now c : ℕ) (is : List ℕ) (cs : ℕ → Option ℕ)
    → has_time (cs c) ≡ true
    → has_time (fire now is cs c) ≡ true
unfolding fire
fire_keeps now c [] cs h = h
fire_keeps now c (i ∷ is) cs h =
    fire_keeps now c is (λ j. if j == i then offer now (cs j) else cs j)
      (elim (Bool-cases (c == i)) [
        | inl same ↦ rw same (offer-has_time now (cs c))
        | inr other ↦ rw other h
      ])

fire-fired :
    (now c : ℕ) (is : List ℕ) (cs : ℕ → Option ℕ) → In c is → has_time (fire now is cs c) ≡ true
unfolding fire
fire-fired now c [] cs h = elim h [ ]
fire-fired now c (i ∷ is) cs (inl e) =
    let same : (c == i) ≡ true = ground (arith, e) in
    fire_keeps now c is (λ j. if j == i then offer now (cs j) else cs j)
      (rw same (offer-has_time now (cs c)))
fire-fired now c (i ∷ is) cs (inr h) =
    fire-fired now c is (λ j. if j == i then offer now (cs j) else cs j) h

fired_head :
    (now : ℕ) (w : Waiter) (ws : List Waiter)
    → w.closed ≡ false
    → w.at ≤ now
    → In w.chan (fired now (w ∷ ws))
unfolding fired
fired_head now w ws o d = let due : leb w.at now ≡ true = ground arith in rw (o, due) (inl refl)

fired_more :
    (now c : ℕ) (w : Waiter) (ws : List Waiter) → In c (fired now ws) → In c (fired now (w ∷ ws))
unfolding fired
fired_more now c w ws h = elim (Bool-cases w.closed) [
  | inl gone ↦ rw gone h
  | inr here ↦ elim (Bool-cases (leb w.at now)) [
    | inl due ↦ rw (here, due) (inr h)
    | inr ahead ↦ rw (here, ahead) h
  ]
]

fired_due :
    (now : ℕ) (w : Waiter) (ws : List Waiter)
    → In w ws
    → w.closed ≡ false
    → w.at ≤ now
    → In w.chan (fired now ws)
unfolding fired
fired_due now w [] h o d = elim h [ ]
fired_due now w (v ∷ ws) (inl e) o d = rw (sym e) (fired_head now w ws o d)
fired_due now w (v ∷ ws) (inr h) o d = fired_more now w.chan v ws (fired_due now w ws h o d)

-- The ticker that comes after a due one.
abbrev pub Rearmed : ℕ → Waiter → Waiter → Type 0
Rearmed now w v =
    (v.chan ≡ w.chan)
    × (v.period ≡ w.period)
    × (v.closed ≡ false)
    × (now < v.at)
    × (v.at ≤ now + w.period)
    × ((k : ℕ) × (v.at ≡ w.at + k * w.period))

-- What becomes of the first waiter.
keep_waiters_cases :
    (now : ℕ) (w : Waiter) (ws : List Waiter)
    → (keep_waiters now (w ∷ ws) ≡ keep_waiters now ws)
      ⊎ (((w.closed ≡ false) × (now < w.at) × (keep_waiters now (w ∷ ws) ≡ w ∷ keep_waiters now ws))
          ⊎ ((w.closed ≡ false)
              × (w.at ≤ now)
              × (0 < w.period)
              × (keep_waiters now (w ∷ ws)
                  ≡ record w { at = rearm now w.period w.at } ∷ keep_waiters now ws)))
unfolding keep_waiters
keep_waiters_cases now w ws = ground arith

keep_more :
    (now : ℕ) (v w : Waiter) (ws : List Waiter)
    → In v (keep_waiters now ws)
    → In v (keep_waiters now (w ∷ ws))
keep_more now v w ws h = elim (keep_waiters_cases now w ws) [
  | inl gone ↦ rw gone h
  | inr (inl (o, a, same)) ↦ rw same (inr h)
  | inr (inr (o, d, p, again)) ↦ rw again (inr h)
]

rearm-Rearmed :
    (now : ℕ) (w : Waiter)
    → w.closed ≡ false
    → w.at ≤ now
    → 0 < w.period
    → Rearmed now w (record w { at = rearm now w.period w.at })
rearm-Rearmed now w o d p =
    let (e, after, bound, steps) =
      rearm_in-rearm (suc (now - w.at)) now w.period w.at p d (omega arith) in
    (refl, refl, o, after, bound, steps)

keep_head :
    (now : ℕ) (w : Waiter) (ws : List Waiter)
    → w.closed ≡ false
    → w.at ≤ now
    → 0 < w.period
    → keep_waiters now (w ∷ ws) ≡ record w { at = rearm now w.period w.at } ∷ keep_waiters now ws
unfolding keep_waiters
keep_head now w ws o d p = ground arith

kept_due :
    (now : ℕ) (w : Waiter) (ws : List Waiter)
    → In w ws
    → w.closed ≡ false
    → w.at ≤ now
    → 0 < w.period
    → (v : Waiter) × In v (keep_waiters now ws) × Rearmed now w v
kept_due now w [] h o d p = elim h [ ]
kept_due now w (u ∷ ws) (inl e) o d p =
    rw (sym e, keep_head now w ws o d p)
      (record w { at = rearm now w.period w.at }, inl refl, rearm-Rearmed now w o d p)
kept_due now w (u ∷ ws) (inr h) o d p =
    let (v, i, r) = kept_due now w ws h o d p in (v, keep_more now v u ws i, r)

none_kept : (now : ℕ) (v : Waiter) → In v (keep_waiters now []) → ⊥
unfolding keep_waiters
none_kept now v h = h

-- Every waiter that is kept is open and waits for a later time.
keep_waiters_later :
    (now : ℕ) (v : Waiter) (ws : List Waiter)
    → In v (keep_waiters now ws)
    → (v.closed ≡ false) × (now < v.at)
keep_waiters_later now v [] h = elim (none_kept now v h) [ ]
keep_waiters_later now v (w ∷ ws) h = elim (keep_waiters_cases now w ws) [
  | inl gone ↦ keep_waiters_later now v ws (rw gone at h)
  | inr (inl (o, a, same)) ↦ elim (rw same at h) [
    | inl e ↦ rw e (o, a)
    | inr k ↦ keep_waiters_later now v ws k
  ]
  | inr (inr (o, d, p, again)) ↦ elim (rw again at h) [
    | inl e ↦ rw e (o, (rearm-Rearmed now w o d p).3)
    | inr k ↦ keep_waiters_later now v ws k
  ]
]

-- An open wait that Advance reaches has a time in its channel; it was a one-shot wait, or the ticker
-- waits again, for its first deadline after now.
pub advance_due :
    (d : ℕ) (f : Fake) (w : Waiter)
    → In w f.waiters
    → w.closed ≡ false
    → w.at ≤ f.now + d
    → (has_time ((advance d f).channels w.chan) ≡ true)
      × ((w.period ≡ 0)
          ⊎ ((v : Waiter) × In v (advance d f).waiters × Rearmed (advance d f).now w v))
unfolding advance
advance_due d f w h o t = (
  fire-fired (f.now + d) w.chan (fired (f.now + d) f.waiters) f.channels
      (fired_due (f.now + d) w f.waiters h o t),
  elim (Bool-cases (ltb 0 w.period)) [
    | inl ticks ↦ inr (kept_due (f.now + d) w f.waiters h o t (ground arith))
    | inr once ↦ inl (ground arith)
  ],
)

-- After Advance every wait is open, for a later time than the clock's.
pub advance_later :
    (d : ℕ) (f : Fake) (v : Waiter)
    → In v (advance d f).waiters
    → (v.closed ≡ false) × ((advance d f).now < v.at)
unfolding advance
advance_later d f v h = keep_waiters_later (f.now + d) v f.waiters h

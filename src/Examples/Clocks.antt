-- ===== src/Examples/Clocks.antt =====
-- packages/chassis/clock: a ticker with a period of 10 and a one-shot wait of 5, at 100.
use cofound.Prelude.{ℕ, ◌+◌, ◌*◌, ◌≤◌, ◌<◌, ◌≡◌, refl, inl, false, [], ◌∷◌, In, arith}
use cofound.Clock.{Waiter, Fake, new_fake, add_waiter, advance, rearm_in, rearm, keep_waiters}
use cofound.Clock.Rearm.{rearm_in-rearm}
use cofound.Clock.Advanced.{advance_later}

rearm_in-rearm_example :
    (rearm_in 50 135 10 110 ≡ rearm 135 10 110)
    × (135 < rearm 135 10 110)
    × (rearm 135 10 110 ≤ 135 + 10)
    × ((k : ℕ) × (rearm 135 10 110 ≡ 110 + k * 10))
rearm_in-rearm_example = rearm_in-rearm 50 135 10 110 (omega arith) (omega arith) (omega arith)

abbrev ticker : Waiter
ticker = record { at = 110; chan = 0; period = 10; closed = false }

abbrev once : Waiter
once = record { at = 105; chan = 1; period = 0; closed = false }

abbrev fake : Fake
fake = record (new_fake 100) { waiters = ticker ∷ once ∷ []; next_chan = 2 }

registered : (add_waiter 5 0 (add_waiter 10 10 (new_fake 100)).0).0 ≡ fake
unfolding add_waiter new_fake
registered = refl

again : In (record ticker { at = 140 }) (advance 35 fake).waiters
unfolding advance new_fake keep_waiters rearm rearm_in
again = inl refl

advance_later_example : (false ≡ false) × ((advance 35 fake).now < 140)
advance_later_example = advance_later 35 fake (record ticker { at = 140 }) again

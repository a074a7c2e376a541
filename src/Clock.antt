-- ===== src/Clock.antt =====
-- packages/chassis/clock/clock.go: the Fake, which is advanced by hand. A time is in nanoseconds; an
-- Advance goes forward. The mutex is held for the whole of a change, and a channel, which holds one
-- time, has a number. Tickers have a period above 0, for NewTicker panics otherwise; a one-shot wait
-- has 0.
pub mod Rearm
pub mod Advanced
use cofound.Prelude.{
  ℕ, zero, suc, ◌+◌, ◌-◌, Bool, true, false, not, Option, none, some, List, [], ◌∷◌, ◌++◌, ◌==◌,
  ltb, leb, count, if◌then◌else◌,
}

-- fakeWaiter
pub record Waiter : Type 0 where
  pub at : ℕ
  pub chan : ℕ
  pub period : ℕ
  pub closed : Bool

-- Fake
pub record Fake : Type 0 where
  pub now : ℕ
  pub waiters : List Waiter
  pub channels : ℕ → Option ℕ
  pub next_chan : ℕ

-- NewFake
unfoldable pub new_fake : ℕ → Fake
new_fake now = record { now = now; waiters = []; channels = λ c. none; next_chan = 0 }

-- What After and NewTicker register; the number of the channel.
unfoldable pub add_waiter : ℕ → ℕ → Fake → Fake × ℕ
add_waiter d period f = (
  record f {
    waiters =
        f.waiters
        ++ record { at = f.now + d; chan = f.next_chan; period = period; closed = false } ∷ [];
    next_chan = suc f.next_chan;
  },
  f.next_chan,
)

-- After
unfoldable pub after : ℕ → Fake → Fake × ℕ
unfolding add_waiter
after d f = add_waiter d 0 f

-- NewTicker, or none where it panics.
unfoldable pub new_ticker : ℕ → Fake → Option (Fake × ℕ)
unfolding add_waiter
new_ticker d f = if d == 0 then none else some (add_waiter d d f)

-- The loop that re-arms a ticker; a turn for each unit of time is enough.
unfoldable pub rearm_in : ℕ → ℕ → ℕ → ℕ → ℕ
rearm_in zero now period at = at
rearm_in (suc fuel) now period at =
    let later = rearm_in fuel now period (at + period) in if leb at now then later else at

unfoldable pub rearm : ℕ → ℕ → ℕ → ℕ
unfolding rearm_in
rearm now period at = rearm_in (suc (now - at)) now period at

-- The waiters that Advance keeps.
unfoldable pub keep_waiters : ℕ → List Waiter → List Waiter
unfolding rearm
keep_waiters now [] = []
keep_waiters now (w ∷ ws) =
    let rest = keep_waiters now ws in
    if w.closed
    then rest
    else if leb w.at now
    then (if ltb 0 w.period then record w { at = rearm now w.period w.at } ∷ rest else rest)
    else w ∷ rest

-- The channels that it fires.
unfoldable pub fired : ℕ → List Waiter → List ℕ
fired now [] = []
fired now (w ∷ ws) =
    let rest = fired now ws in
    if w.closed then rest else if leb w.at now then w.chan ∷ rest else rest

abbrev pub offer : ℕ → Option ℕ → Option ℕ
offer now none = some now
offer now (some t) = some t

-- `select { case w.ch <- now: default: }`, for each channel.
unfoldable pub fire : ℕ → List ℕ → (ℕ → Option ℕ) → ℕ → Option ℕ
fire now [] cs = cs
fire now (c ∷ rest) cs = fire now rest (λ i. if i == c then offer now (cs i) else cs i)

-- Advance
unfoldable pub advance : ℕ → Fake → Fake
unfolding keep_waiters fired fire
advance d f =
    let now = f.now + d in
    record f {
      now = now;
      waiters = keep_waiters now f.waiters;
      channels = fire now (fired now f.waiters) f.channels;
    }

-- Set
unfoldable pub set_time : ℕ → Fake → Fake
unfolding advance
set_time t f = if ltb f.now t then advance (t - f.now) f else record f { now = t }

-- Waiters
unfoldable pub waiting : Fake → ℕ
waiting f = count (λ w. not w.closed) f.waiters

unfoldable pub close_waiter : ℕ → List Waiter → List Waiter
close_waiter c [] = []
close_waiter c (w ∷ ws) =
    (if w.chan == c then record w { closed = true } else w) ∷ close_waiter c ws

-- Stop, of the ticker with this channel.
unfoldable pub stop : ℕ → Fake → Fake
unfolding close_waiter
stop c f = record f { waiters = close_waiter c f.waiters }

-- A receive from a channel that has a time.
unfoldable pub receive : ℕ → Fake → Fake × Option ℕ
receive c f = (record f { channels = λ i. if i == c then none else f.channels i }, f.channels c)

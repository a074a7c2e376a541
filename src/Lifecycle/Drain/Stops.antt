-- ===== src/Lifecycle/Drain/Stops.antt =====
-- Draining comes to an end.
use cofound.Prelude.{
  ℕ, zero, suc, ◌<◌, ◌≡◌, refl, sym, subst, inl, inr, ◌⊎◌, true, false, some, List, [], ◌∷◌, arith,
  count, length, In, ◌==◌,
}
use cofound.Lifecycle.Drain.{
  Handle, Drain, enter, handle_at, mark, do_release, release, begin, wait, Call, step, run, enters,
  releases, begins, waits,
}
use cofound.Lifecycle.Drain.Counted.{is_open, IsCounted, run-IsCounted_from}

handle_at-mark :
    (i j : ℕ) (hs : List Handle) (h : Handle)
    → handle_at j (mark i hs) ≡ some h
    → (h.released ≡ true) ⊎ ((handle_at j hs ≡ some h) × ((j == i) ≡ false))
unfolding handle_at mark
handle_at-mark i j [] h e = cc
handle_at-mark zero zero (x ∷ xs) h e = ground arith
handle_at-mark zero (suc j) (x ∷ xs) h e = ground arith
handle_at-mark (suc i) zero (x ∷ xs) h e = ground arith
handle_at-mark (suc i) (suc j) (x ∷ xs) h e = ground (arith, handle_at-mark i j xs h e)

handle_at-bound : (i : ℕ) (hs : List Handle) (h : Handle) → handle_at i hs ≡ some h → i < length hs
unfolding handle_at
handle_at-bound i [] h e = cc
handle_at-bound zero (x ∷ xs) h e = omega arith
handle_at-bound (suc i) (x ∷ xs) h e = omega (arith, handle_at-bound i xs h e)

length-mark : (i : ℕ) (hs : List Handle) → length (mark i hs) ≡ length hs
unfolding mark
length-mark i [] = refl
length-mark zero (x ∷ xs) = refl
length-mark (suc i) (x ∷ xs) = omega (arith, length-mark i xs)

count_released :
    (hs : List Handle)
    → ((i : ℕ) (h : Handle) → handle_at i hs ≡ some h → h.released ≡ true)
    → count is_open hs ≡ 0
unfolding count is_open handle_at
count_released [] f = refl
count_released (x ∷ xs) f =
    ground (arith, count_released xs (λ i h e. f (suc i) h e), f zero x refl)

-- The request of a handle has ended.
abbrev pub IsReleased : ℕ → Drain → Type 0
IsReleased i d = (h : Handle) → handle_at i d.handles ≡ some h → h.released ≡ true

-- A call while draining: it lets nobody in, and what has ended stays so.
step-draining :
    (c : Call) (d : Drain)
    → d.begun ≡ true
    → ((step c d).begun ≡ true) × (length (step c d).handles ≡ length d.handles)
unfolding step enter release do_release begin wait
step-draining (enters kind) d b = ground arith
step-draining (releases i) d b = ground (arith, length-mark i d.handles)
step-draining begins d b = (refl, refl)
step-draining waits d b = ground arith

step-IsReleased :
    (c : Call) (d : Drain) (i : ℕ) → d.begun ≡ true → IsReleased i d → IsReleased i (step c d)
unfolding step enter release do_release begin wait
step-IsReleased (enters kind) d i b r h e = ground (arith, r h)
step-IsReleased (releases j) d i b r h e = ground (arith, r h, handle_at-mark j i d.handles h)
step-IsReleased begins d i b r h e = r h e
step-IsReleased waits d i b r h e = ground (arith, r h)

releases-IsReleased : (d : Drain) (i : ℕ) → IsReleased i (step (releases i) d)
unfolding step release do_release
releases-IsReleased d i h e = ground (arith, handle_at-mark i i d.handles h)

run-IsReleased :
    (cs : List Call) (d : Drain) (i : ℕ) → d.begun ≡ true → IsReleased i d → IsReleased i (run cs d)
unfolding run
run-IsReleased [] d i b r = r
run-IsReleased (c ∷ cs) d i b r =
    run-IsReleased cs (step c d) i (step-draining c d b).0 (step-IsReleased c d i b r)

run-releases :
    (cs : List Call) (d : Drain) (i : ℕ)
    → d.begun ≡ true
    → In (releases i) cs
    → IsReleased i (run cs d)
unfolding run
run-releases [] d i b k = absurd k
run-releases (c ∷ cs) d i b (inr k) = run-releases cs (step c d) i (step-draining c d b).0 k
run-releases (c ∷ cs) d i b (inl e) =
    run-IsReleased cs (step c d) i (step-draining c d b).0
      (subst (λ x. IsReleased i (step x d)) e (releases-IsReleased d i))

-- Once draining has begun nothing enters: whatever is called, no handle is added.
run-draining :
    (cs : List Call) (d : Drain)
    → d.begun ≡ true
    → ((run cs d).begun ≡ true) × (length (run cs d).handles ≡ length d.handles)
unfolding run
run-draining [] d b = (b, refl)
run-draining (c ∷ cs) d b = ground (arith, step-draining c d b, run-draining cs (step c d))

-- After Begin, any calls that release every handle that was out, in any order and among any others,
-- bring the total to zero and wake every caller of Wait, and no request is let in on the way.
pub run-drains :
    (cs : List Call) (d : Drain)
    → IsCounted d
    → d.begun ≡ true
    → ((i : ℕ) → i < length d.handles → In (releases i) cs)
    → ((run cs d).total ≡ 0)
      × (length (run cs d).handles ≡ length d.handles)
      × ((w : ℕ) → w < (run cs d).next_waiter → In w (run cs d).woken)
run-drains cs d inv b all = (none_left, (run-draining cs d b).1, λ w l. woken w (after.heard w l))
  where
    after : IsCounted (run cs d)
    after = run-IsCounted_from cs d inv

    none_left : (run cs d).total ≡ 0
    none_left =
        subst (λ n. n ≡ 0) (sym after.all)
          (count_released (run cs d).handles (λ i h e.
            run-releases cs d i b
              (all i
                (omega (arith, handle_at-bound i (run cs d).handles h e, (run-draining cs d b).1)))
              h e))

    woken : (w : ℕ) → In w (run cs d).waiters ⊎ In w (run cs d).woken → In w (run cs d).woken
    woken w (inr k) = k
    woken w (inl k) = absurd (subst (λ ws. In w ws) (after.idle none_left) k)

-- ===== src/Health/Polled.antt =====
-- What the result of a probe says of the polls so far.
use cofound.Prelude.{
  ℕ, suc, ◌<◌, ◌≡◌, refl, String, Option, none, some, List, [], ◌∷◌, arith, eq_iff, lookup,
  lookup-assign, Bool-cases, ◌=s◌, if◌then◌else◌, inl, inr,
}
use cofound.Health.{
  Options, State, Probe, Result, Registry, new_registry, is_same, state_of, transitioned,
  next_result, poll, register, start, set_draining, Call, registers, starts, polls, drains, step,
  run,
}
use cofound.Health.Kept.{IsRun}

-- The polls of one probe, the newest first, each with its error and its time.
abbrev pub History : Type 0
History = List (Option String × ℕ)

unfoldable pub polls_of : String → List Call → History → History
polls_of n [] past = past
polls_of n (polls p e latency now ∷ cs) past =
    polls_of n cs (if p.name =s n then (e, now) ∷ past else past)
polls_of n (c ∷ cs) past = polls_of n cs past

-- How many of the newest polls found this state, and when the first of them did.
unfoldable pub streak : State → History → ℕ
streak s [] = 0
streak s ((e, t) ∷ past) = if is_same (state_of e) s then suc (streak s past) else 0

unfoldable pub began : State → ℕ → History → ℕ
began s now [] = now
began s now ((e, t) ∷ past) = if is_same (state_of e) s then began s t past else now

-- A result that is the last poll's, with the length and the beginning of its streak.
abbrev pub Sums : Option String → ℕ → History → Result → Type 0
Sums e now past res =
    (res.state ≡ state_of e)
    × (res.checked_at ≡ now)
    × (res.cause ≡ e)
    × (res.consecutive ≡ streak (state_of e) ((e, now) ∷ past))
    × (res.since ≡ began (state_of e) now past)
    × (0 < res.since)

abbrev pub Describes : History → Option Result → Type 0
Describes [] o = o ≡ none
Describes ((e, now) ∷ past) o = (res : Result) × (o ≡ some res) × Sums e now past res

next_result-Sums :
    (p : Probe) (e : Option String) (latency now : ℕ) (past : History) (o : Option Result)
    → 0 < now
    → Describes past o
    → Sums e now past (next_result p e latency now o)
unfolding next_result transitioned streak began
next_result-Sums p none latency now [] o t h = rw h (refl, refl, refl, refl, refl, t)
next_result-Sums p (some w) latency now [] o t h = rw h (refl, refl, refl, refl, refl, t)
next_result-Sums p none latency now ((none, u) ∷ past) o t (res, h, (s, c, g, m, b, z)) =
    rw (h, s) (refl, refl, refl, ground arith, ground arith, ground arith)
next_result-Sums p none latency now ((some v, u) ∷ past) o t (res, h, (s, c, g, m, b, z)) =
    rw (h, s) (refl, refl, refl, ground arith, ground arith, ground arith)
next_result-Sums p (some w) latency now ((none, u) ∷ past) o t (res, h, (s, c, g, m, b, z)) =
    rw (h, s) (refl, refl, refl, ground arith, ground arith, ground arith)
next_result-Sums p (some w) latency now ((some v, u) ∷ past) o t (res, h, (s, c, g, m, b, z)) =
    rw (h, s) (refl, refl, refl, ground arith, ground arith, ground arith)

step-results : (p : Probe) (r : Registry) → (step (registers p) r).results ≡ r.results
unfolding step register
step-results p r = ground arith

poll-Describes :
    (p : Probe) (e : Option String) (latency now : ℕ) (n : String) (r : Registry) (past : History)
    → 0 < now
    → Describes past (lookup n r.results)
    → Describes
        (if p.name =s n then (e, now) ∷ past else past)
        (lookup n (poll p e latency now r).results)
unfolding poll
poll-Describes p e latency now n r past t h =
    rw (lookup-assign p.name n (next_result p e latency now (lookup p.name r.results)) r.results)
      (elim (Bool-cases (p.name =s n)) [
        | inl same ↦
            let name : p.name ≡ n = ground (arith, eq_iff p.name n) in
            rw same (
              next_result p e latency now (lookup p.name r.results),
              refl,
              next_result-Sums p e latency now past (lookup p.name r.results) t (rw name h),
            )
        | inr other ↦ rw other h
      ])

run-Describes :
    (cs : List Call) (n : String) (r : Registry) (past : History)
    → IsRun cs r
    → Describes past (lookup n r.results)
    → Describes (polls_of n cs past) (lookup n (run cs r).results)
unfolding run polls_of IsRun step start set_draining
run-Describes [] n r past a h = h
run-Describes (registers p ∷ cs) n r past (a, b) h =
    run-Describes cs n (step (registers p) r) past b (rw (step-results p r) h)
run-Describes (starts ∷ cs) n r past (a, b) h = run-Describes cs n (start r) past b h
run-Describes (polls p e latency now ∷ cs) n r past (a, b) h =
    run-Describes cs n (poll p e latency now r) (if p.name =s n then (e, now) ∷ past else past) b
      (poll-Describes p e latency now n r past a.1 h)
run-Describes (drains ∷ cs) n r past (a, b) h = run-Describes cs n (set_draining r) past b h

-- After any calls, the result stored under a name is that of the last poll of that name's probe, with
-- the number of polls in a row that found its state and the time of the first of them; there is
-- none before the first poll.
pub polled-Describes :
    (o : Options) (cs : List Call) (n : String)
    → IsRun cs (new_registry o)
    → Describes (polls_of n cs []) (lookup n (run cs (new_registry o)).results)
polled-Describes o cs n h =
    run-Describes cs n (new_registry o) [] h (unfold new_registry lookup in refl)

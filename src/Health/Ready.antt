-- ===== src/Health/Ready.antt =====
-- When a snapshot says that the process is ready.
use cofound.Prelude.{
  ℕ, ◌+◌, ◌≤◌, ◌≡◌, ◌↔◌, ◌⊎◌, inl, inr, refl, true, false, ◌||◌, some, List, [], ◌∷◌, In, arith,
  ltb, map, lookup, Bool, sym, ◌∙◌, Bool-cases, Option-cases,
}
use cofound.Health.{
  Options, State, up, down, unknown, Criticality, critical, degrading, Probe, Result, Registry,
  new_registry, is_same, seen, insert, sort, blocks, any_blocks, snapshot, Call, registers, starts,
  polls, drains, step, register, start, poll, set_draining, run,
}
use cofound.Health.Kept.{IsRun, IsKept, new_registry-IsKept, run-IsKept}

-- The probe was polled no longer ago than a result stays fresh, and was up.
abbrev pub IsFresh : Registry → ℕ → Probe → Type 0
IsFresh r now p =
    (res : Result) × (lookup p.name r.results ≡ some res)
    × (res.state ≡ up)
    × (now ≤ res.checked_at + r.opts.stale_after)

-- Whether SetDraining is among the calls.
unfoldable pub is_drained : List Call → Bool
is_drained [] = false
is_drained (registers p ∷ cs) = is_drained cs
is_drained (starts ∷ cs) = is_drained cs
is_drained (polls p e latency now ∷ cs) = is_drained cs
is_drained (drains ∷ cs) = true

-- SetDraining is not among the calls, and every critical probe is fresh.
abbrev pub IsReady : List Call → Registry → ℕ → Type 0
IsReady cs r now =
    (is_drained cs ≡ false)
    × ((p : Probe) → In p r.probes → p.criticality ≡ critical → IsFresh r now p)

one_state : (x res : Result) → some res ≡ some x → res.state ≡ x.state
one_state x res f = cc

one_time : (x res : Result) → some res ≡ some x → res.checked_at ≡ x.checked_at
one_time x res f = cc

pub contrary : false ≡ true → ⊥
contrary h = cc

same_up : (s : State) → is_same s up ≡ true → s ≡ up
same_up up h = refl
same_up down h = cc
same_up unknown h = cc

of_up : (x res : Result) → some res ≡ some x → x.state ≡ up → is_same res.state up ≡ true
of_up x res f u = rw (one_state x res f, u) refl

old :
    {A : Type 0} (x res : Result) (now stale : ℕ)
    → some res ≡ some x
    → now ≤ x.checked_at + stale
    → ltb (res.checked_at + stale) now ≡ true
    → A
old x res now stale f t h = ground (arith, one_time x res f)

pub seen_up :
    (r : Registry) (now : ℕ) (p : Probe)
    → (is_same (seen r now p).state up ≡ true) ↔ IsFresh r now p
unfolding seen
seen_up r now p = elim (Option-cases (lookup p.name r.results)) [
  | inl never ↦ rw (never, seen) (λ h. elim (contrary h) [ ], λ (res, f, u, t). ground arith)
  | inr (res, found) ↦ elim (Bool-cases (ltb (res.checked_at + r.opts.stale_after) now)) [
    | inl stale ↦
        rw (found, seen, stale)
          (λ h. elim (contrary h) [ ], λ (x, f, u, t). old x res now r.opts.stale_after f t stale)
    | inr young ↦
        rw (found, seen, young)
          (λ h. (res, refl, same_up res.state h, ground arith), λ (x, f, u, t). of_up x res f u)
  ]
]

seen_criticality :
    (r : Registry) (now : ℕ) (p : Probe)
    → IsKept r
    → In p r.probes
    → (seen r now p).criticality ≡ p.criticality
unfolding seen
seen_criticality r now p k i = elim (Option-cases (lookup p.name r.results)) [
  | inl never ↦ rw (never, seen) refl
  | inr (res, found) ↦ rw (found, seen) (ground (arith, k.results_of p res i found))
]

any_blocks-insert :
    (x : Result) (xs : List Result) → any_blocks (insert x xs) ≡ (blocks x || any_blocks xs)
unfolding any_blocks insert
any_blocks-insert x [] = refl
any_blocks-insert x (y ∷ ys) = ground (arith, any_blocks-insert x ys)

any_blocks-sort : (xs : List Result) → any_blocks (sort xs) ≡ any_blocks xs
unfolding any_blocks sort
any_blocks-sort [] = refl
any_blocks-sort (x ∷ xs) = rw (any_blocks-insert x (sort xs), any_blocks-sort xs) refl

none_blocks :
    (f : Probe → Result) (ps : List Probe) (p : Probe)
    → any_blocks (map f ps) ≡ false
    → In p ps
    → blocks (f p) ≡ false
unfolding any_blocks
none_blocks f [] p h i = elim i [ ]
none_blocks f (q ∷ ps) p h (inl e) = rw e (ground arith)
none_blocks f (q ∷ ps) p h (inr i) = none_blocks f ps p (ground arith) i

all_pass :
    (f : Probe → Result) (ps : List Probe)
    → ((p : Probe) → In p ps → blocks (f p) ≡ false)
    → any_blocks (map f ps) ≡ false
unfolding any_blocks
all_pass f [] h = refl
all_pass f (q ∷ ps) h = ground (arith, h q (inl refl), all_pass f ps (λ p i. h p (inr i)))

Criticality-cases : (c : Criticality) → (c ≡ critical) ⊎ (c ≡ degrading)
Criticality-cases critical = inl refl
Criticality-cases degrading = inr refl

passes :
    (r : Registry) (now : ℕ) (p : Probe)
    → IsKept r
    → In p r.probes
    → (blocks (seen r now p) ≡ false) ↔ (p.criticality ≡ critical → IsFresh r now p)
unfolding blocks
passes r now p k i =
    let seen_one = seen_up r now p in
    let of_p = seen_criticality r now p k i in
    (
      λ h c. seen_one.0 (ground arith),
      λ f. elim (Criticality-cases p.criticality) [
        | inl c ↦ ground (arith, seen_one.1 (f c))
        | inr c ↦ ground (arith, of_p, c)
      ],
    )

snapshot_up :
    (r : Registry) (now : ℕ)
    → ((snapshot r now).state ≡ up)
      ↔ ((r.draining ≡ false) × (any_blocks (map (seen r now) r.probes) ≡ false))
unfolding snapshot
snapshot_up r now = ground (arith, any_blocks-sort (map (seen r now) r.probes))

-- Nothing but SetDraining makes a registry drain, and nothing undoes it.
step-draining :
    (c : Call) (r : Registry) → (step c r).draining ≡ (r.draining || is_drained (c ∷ []))
unfolding step is_drained register start poll set_draining
step-draining (registers p) r = ground arith
step-draining starts r = ground arith
step-draining (polls p e latency now) r = ground arith
step-draining drains r = ground arith

is_drained-cons :
    (c : Call) (cs : List Call) → is_drained (c ∷ cs) ≡ (is_drained (c ∷ []) || is_drained cs)
unfolding is_drained
is_drained-cons (registers p) cs = refl
is_drained-cons starts cs = refl
is_drained-cons (polls p e latency now) cs = refl
is_drained-cons drains cs = refl

run-draining : (cs : List Call) (r : Registry) → (run cs r).draining ≡ (r.draining || is_drained cs)
unfolding run
run-draining [] r = unfold is_drained in ground arith
run-draining (c ∷ cs) r =
    ground (arith, run-draining cs (step c r), step-draining c r, is_drained-cons c cs)

pub kept-IsReady :
    (cs : List Call) (r : Registry) (now : ℕ)
    → IsKept r
    → r.draining ≡ is_drained cs
    → ((snapshot r now).state ≡ up) ↔ IsReady cs r now
kept-IsReady cs r now k d =
    let (to, back) = snapshot_up r now in
    (
      (λ h. (
        sym d ∙ (to h).0,
        λ p i. (passes r now p k i).0 (none_blocks (seen r now) r.probes p (to h).1 i),
      )),
      (λ (n, f).
          back (d ∙ n, all_pass (seen r now) r.probes (λ p i. (passes r now p k i).1 (f p i)))),
    )

-- After any calls that poll only registered probes, a snapshot says up just when SetDraining is not
-- among them and every critical probe has a result that is up and not stale.
pub snapshot-IsReady :
    (o : Options) (cs : List Call) (now : ℕ)
    → IsRun cs (new_registry o)
    → ((snapshot (run cs (new_registry o)) now).state ≡ up)
      ↔ IsReady cs (run cs (new_registry o)) now
unfolding new_registry
snapshot-IsReady o cs now h =
    kept-IsReady cs (run cs (new_registry o)) now
      (run-IsKept cs (new_registry o) h (new_registry-IsKept o)) (run-draining cs (new_registry o))

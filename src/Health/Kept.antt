-- ===== src/Health/Kept.antt =====
-- The registry after any calls: each probe has a name of its own, and each result is of its probe.
use cofound.Prelude.{
  ℕ, ◌<◌, ◌≡◌, ◌⊎◌, inl, inr, refl, ap, sym, ◌∙◌, String, true, false, ◌||◌, Option, none, some,
  List, [], ◌∷◌, In, arith, eq_iff, ◌=s◌, lookup, lookup-assign, Bool-cases,
}
use cofound.Health.{
  Options, Probe, Result, Registry, new_registry, has_name, append_probe, register, start,
  next_result, poll, set_draining, Call, registers, starts, polls, drains, step, run,
}

-- A poll is of a probe that is registered, at a time that is not the zero time.
abbrev pub IsAllowed : Call → Registry → Type 0
IsAllowed (polls p e latency now) r = In p r.probes × (0 < now)
IsAllowed c r = Unit

unfoldable pub IsRun : List Call → Registry → Type 0
IsRun [] r = Unit {0}
IsRun (c ∷ cs) r = IsAllowed c r × IsRun cs (step c r)

unfoldable pub Distinct : List Probe → Type 0
Distinct [] = Unit {0}
Distinct (p ∷ ps) = (has_name p.name ps ≡ false) × Distinct ps

has_name-append_probe :
    (n : String) (p : Probe) (ps : List Probe)
    → has_name n (append_probe p ps) ≡ (has_name n ps || (p.name =s n))
unfolding has_name append_probe
has_name-append_probe n p [] = ground arith
has_name-append_probe n p (q ∷ ps) = ground (arith, has_name-append_probe n p ps)

append_probe-Distinct :
    (p : Probe) (ps : List Probe)
    → has_name p.name ps ≡ false
    → Distinct ps
    → Distinct (append_probe p ps)
unfolding Distinct append_probe has_name
append_probe-Distinct p [] h d = (refl, tt)
append_probe-Distinct p (q ∷ ps) h (n, d) = (
  ground (arith, has_name-append_probe q.name p ps, eq_iff q.name p.name, eq_iff p.name q.name),
  append_probe-Distinct p ps (ground arith) d,
)

In-append_probe : (q p : Probe) (ps : List Probe) → In q (append_probe p ps) → In q ps ⊎ (q ≡ p)
unfolding append_probe
In-append_probe q p [] (inl e) = inr e
In-append_probe q p [] (inr h) = elim h [ ]
In-append_probe q p (r ∷ ps) (inl e) = inl (inl e)
In-append_probe q p (r ∷ ps) (inr h) = elim (In-append_probe q p ps h) [
  | inl k ↦ inl (inr k)
  | inr e ↦ inr e
]

In-has_name : (p : Probe) (ps : List Probe) → In p ps → has_name p.name ps ≡ true
unfolding has_name
In-has_name p [] h = elim h [ ]
In-has_name p (q ∷ ps) (inl e) = ground (arith, eq_iff q.name p.name, ap (λ r. r.name) e)
In-has_name p (q ∷ ps) (inr h) = ground (arith, In-has_name p ps h)

unique :
    (p q r : Probe) (ps : List Probe)
    → has_name r.name ps ≡ false
    → p ≡ r
    → In q ps
    → p.name ≡ q.name
    → ⊥
unique p q r ps n e k s = ground (arith, In-has_name q ps k, ap (λ i. i.name) e)

-- A name belongs to one probe.
pub Distinct-same :
    (p q : Probe) (ps : List Probe) → Distinct ps → In p ps → In q ps → p.name ≡ q.name → p ≡ q
unfolding Distinct
Distinct-same p q [] d h k s = elim h [ ]
Distinct-same p q (r ∷ ps) (n, d) (inl e) (inl f) s = e ∙ sym f
Distinct-same p q (r ∷ ps) (n, d) (inl e) (inr k) s = elim (unique p q r ps n e k s) [ ]
Distinct-same p q (r ∷ ps) (n, d) (inr h) (inl f) s = elim (unique q p r ps n f h (sym s)) [ ]
Distinct-same p q (r ∷ ps) (n, d) (inr h) (inr k) s = Distinct-same p q ps d h k s

-- What holds between the probes and the results.
pub record IsKept (r : Registry) : Type 0 where
  pub own_names : Distinct r.probes
  pub results_of :
      (p : Probe) (res : Result)
      → In p r.probes
      → lookup p.name r.results ≡ some res
      → (res.name ≡ p.name) × (res.criticality ≡ p.criticality)
  pub no_others : (n : String) → has_name n r.probes ≡ false → lookup n r.results ≡ none

pub new_registry-IsKept : (o : Options) → IsKept (new_registry o)
unfolding new_registry Distinct lookup
new_registry-IsKept o = record {
  own_names = tt;
  results_of = λ p res h. elim h [ ];
  no_others = λ n h. refl;
}

register-cases :
    (p : Probe) (r : Registry)
    → (step (registers p) r ≡ r)
      ⊎ ((step (registers p) r ≡ record r { probes = append_probe p r.probes })
          × (has_name p.name r.probes ≡ false))
unfolding step register
register-cases p r = ground arith

appended-IsKept :
    (p : Probe) (r : Registry)
    → has_name p.name r.probes ≡ false
    → IsKept r
    → IsKept (record r { probes = append_probe p r.probes })
appended-IsKept p r h k = record {
  own_names = append_probe-Distinct p r.probes h k.own_names;
  results_of = λ q res i e. elim (In-append_probe q p r.probes i) [
    | inl old ↦ k.results_of q res old e
    | inr new ↦ ground (arith, k.no_others p.name h, ap (λ x. x.name) new)
  ];
  no_others = λ n i. k.no_others n (ground (arith, has_name-append_probe n p r.probes));
}

register-IsKept : (p : Probe) (r : Registry) → IsKept r → IsKept (step (registers p) r)
register-IsKept p r k = elim (register-cases p r) [
  | inl same ↦ rw same k
  | inr (more, new) ↦ rw more (appended-IsKept p r new k)
]

of_probe :
    (p q : Probe) (res new : Result)
    → some new ≡ some res
    → p ≡ q
    → new.name ≡ p.name
    → new.criticality ≡ p.criticality
    → (res.name ≡ q.name) × (res.criticality ≡ q.criticality)
of_probe p q res new s e n c = (cc, cc)

polled_result :
    (p : Probe) (e : Option String) (latency now : ℕ) (r : Registry)
    → In p r.probes
    → IsKept r
    → (q : Probe) (res : Result) → In q r.probes
    → lookup q.name (poll p e latency now r).results ≡ some res
    → (res.name ≡ q.name) × (res.criticality ≡ q.criticality)
unfolding poll next_result
polled_result p e latency now r h k q res i f =
    let found =
      lookup-assign p.name q.name (next_result p e latency now (lookup p.name r.results))
        r.results in
    elim (Bool-cases (p.name =s q.name)) [
      | inl same ↦
          let one : p ≡ q =
            Distinct-same p q r.probes k.own_names h i (ground (arith, eq_iff p.name q.name)) in
          (let stored = sym (rw same at found) ∙ f in
            of_probe p q res (next_result p e latency now (lookup p.name r.results)) stored one refl
              refl)
      | inr other ↦ k.results_of q res i (sym (rw other at found) ∙ f)
    ]

poll-IsKept :
    (p : Probe) (e : Option String) (latency now : ℕ) (r : Registry)
    → In p r.probes
    → IsKept r
    → IsKept (poll p e latency now r)
unfolding poll
poll-IsKept p e latency now r h k = record {
  own_names = k.own_names;
  results_of = λ q res i f. polled_result p e latency now r h k q res i f;
  no_others = λ n i.
      rw (lookup-assign p.name n (next_result p e latency now (lookup p.name r.results)) r.results)
        (ground (arith, k.no_others n i, In-has_name p r.probes h, eq_iff p.name n));
}

step-IsKept : (c : Call) (r : Registry) → IsAllowed c r → IsKept r → IsKept (step c r)
unfolding step start set_draining
step-IsKept (registers p) r a k = register-IsKept p r k
step-IsKept starts r a k = record {
  own_names = k.own_names;
  results_of = k.results_of;
  no_others = k.no_others;
}
step-IsKept (polls p e latency now) r (h, t) k = poll-IsKept p e latency now r h k
step-IsKept drains r a k = record {
  own_names = k.own_names;
  results_of = k.results_of;
  no_others = k.no_others;
}

pub run-IsKept : (cs : List Call) (r : Registry) → IsRun cs r → IsKept r → IsKept (run cs r)
unfolding run IsRun
run-IsKept [] r a k = k
run-IsKept (c ∷ cs) r (a, b) k = run-IsKept cs (step c r) b (step-IsKept c r a k)

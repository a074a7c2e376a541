-- ===== src/Health/Failing.antt =====
-- The names that Failing gives out.
use cofound.Prelude.{
  ℕ, ◌≡◌, ◌↔◌, inl, inr, refl, ap, sym, ◌∙◌, String, true, List, [], ◌∷◌, In, arith, map, contains,
  lookup, ◌=s◌, eq_iff, Bool-cases, Option-cases,
}
use cofound.Health.{
  Options, up, Probe, Result, Registry, new_registry, is_same, seen, insert, sort, snapshot,
  failing_names, failing, Call, run,
}
use cofound.Health.Kept.{IsRun, IsKept, new_registry-IsKept, run-IsKept}
use cofound.Health.Ready.{IsFresh, contrary, seen_up}

contains-insert :
    (n : String) (x : Result) (ys : List Result)
    → contains (failing_names (insert x ys)) n ≡ contains (failing_names (x ∷ ys)) n
unfolding contains failing_names insert
contains-insert n x [] = refl
contains-insert n x (y ∷ ys) = ground (arith, contains-insert n x ys)

contains-cons :
    (n : String) (x : Result) (ys zs : List Result)
    → contains (failing_names ys) n ≡ contains (failing_names zs) n
    → contains (failing_names (x ∷ ys)) n ≡ contains (failing_names (x ∷ zs)) n
unfolding contains failing_names
contains-cons n x ys zs h = ground arith

contains-sort :
    (n : String) (xs : List Result)
    → contains (failing_names (sort xs)) n ≡ contains (failing_names xs) n
unfolding sort
contains-sort n [] = refl
contains-sort n (x ∷ xs) =
    rw (contains-insert n x (sort xs)) (contains-cons n x (sort xs) xs (contains-sort n xs))

-- A probe of this name is not fresh and up.
abbrev pub IsFailing : Registry → ℕ → String → List Probe → Type 0
IsFailing r now n ps = (p : Probe) × In p ps × (p.name ≡ n) × ¬ IsFresh r now p

seen_name :
    (r : Registry) (now : ℕ) (p : Probe) → IsKept r → In p r.probes → (seen r now p).name ≡ p.name
unfolding seen
seen_name r now p k i = elim (Option-cases (lookup p.name r.results)) [
  | inl never ↦ rw (never, seen) refl
  | inr (res, found) ↦ rw (found, seen) (ground (arith, k.results_of p res i found))
]

later :
    (r : Registry) (now : ℕ) (n : String) (q : Probe) (ps : List Probe)
    → IsFailing r now n ps
    → IsFailing r now n (q ∷ ps)
later r now n q ps (p, i, e, f) = (p, inr i, e, f)

failing_name :
    (r : Registry) (now : ℕ) (n : String) (ps : List Probe)
    → ((p : Probe) → In p ps → (seen r now p).name ≡ p.name)
    → contains (failing_names (map (seen r now) ps)) n ≡ true
    → IsFailing r now n ps
unfolding contains failing_names
failing_name r now n [] h c = elim (contrary c) [ ]
failing_name r now n (p ∷ ps) h c =
    let rest = failing_name r now n ps (λ q i. h q (inr i)) in
    elim (Bool-cases (is_same (seen r now p).state up)) [
      | inl fresh ↦ later r now n p ps (rest (rw fresh at c))
      | inr bad ↦ elim (Bool-cases ((seen r now p).name =s n)) [
        | inl same ↦
            let at_n : p.name ≡ n = ground (arith, eq_iff (seen r now p).name n, h p (inl refl)) in
            (p, inl refl, at_n, λ f. contrary (sym bad ∙ (seen_up r now p).1 f))
        | inr other ↦ later r now n p ps (rest (rw (bad, other) at c))
      ]
    ]

name_failing :
    (r : Registry) (now : ℕ) (n : String) (ps : List Probe)
    → ((p : Probe) → In p ps → (seen r now p).name ≡ p.name)
    → IsFailing r now n ps
    → contains (failing_names (map (seen r now) ps)) n ≡ true
unfolding contains failing_names
name_failing r now n [] h (p, i, e, f) = elim i [ ]
name_failing r now n (q ∷ ps) h (p, inl s, e, f) =
    let not_up : (is_same (seen r now q).state up ≡ true) → ⊥ =
      λ u. f (rw s ((seen_up r now q).0 u)) in
    let at_n : (seen r now q).name ≡ n = h q (inl refl) ∙ (sym (ap (λ o. o.name) s) ∙ e) in
    ground (arith, not_up, at_n, eq_iff (seen r now q).name n)
name_failing r now n (q ∷ ps) h (p, inr i, e, f) =
    ground (arith, name_failing r now n ps (λ o j. h o (inr j)) (p, i, e, f))

-- After any calls, Failing names exactly the probes without a result that is up and not stale.
pub failing-IsFailing :
    (o : Options) (cs : List Call) (now : ℕ) (n : String)
    → IsRun cs (new_registry o)
    → (contains (failing (snapshot (run cs (new_registry o)) now)) n ≡ true)
      ↔ IsFailing (run cs (new_registry o)) now n (run cs (new_registry o)).probes
unfolding failing snapshot
failing-IsFailing o cs now n h =
    let r = run cs (new_registry o) in
    let names : (p : Probe) → In p r.probes → (seen r now p).name ≡ p.name =
      λ p i. seen_name r now p (run-IsKept cs (new_registry o) h (new_registry-IsKept o)) i in
    rw (contains-sort n (map (seen r now) r.probes))
      (failing_name r now n r.probes names, name_failing r now n r.probes names)

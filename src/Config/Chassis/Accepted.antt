-- ===== src/Config/Chassis/Accepted.antt =====
-- packages/chassis/config/chassis.go: the configurations that Load accepts.
use cofound.Prelude.{
  ◌≡◌, ◌≢◌, ◌⊎◌, ◌↔◌, refl, inl, inr, true, false, List, [], ◌∷◌, ◌=s◌, and_last, arith, eq_iff,
  Bool-cases, All, subst, sym, ap, ◌∙◌,
}
use cofound.Config.Parse.{negsuc, leb_int}
use cofound.Config.Loader.{Loader, Problem, new_loader, problem}
use cofound.Config.Chassis.{ChassisHost, Chassis, Defaults, is_production, bind}
use cofound.Config.Chassis.Rules.{
  add_int, lt_int, is_loopback_or_private, Rule, apply_rules, rules, debug_in_production,
  admin_exposed, detail_exposed, phases, validate, loaded, outcome, load_chassis,
}

-- The rules of validate, as what holds of a configuration.
pub record IsSound (h : ChassisHost) (c : Chassis) : Type 0 where
  pub quiet : (c.env ≢ "production") ⊎ (lt_int (negsuc 3) c.log.level ≡ true)
  pub budgeted : leb_int (phases c) c.shutdown.budget ≡ true
  pub patient : lt_int c.http.read_header_timeout c.http.idle_timeout ≡ true
  pub lasting :
      lt_int (add_int c.readiness.interval c.readiness.interval) c.readiness.stale_after ≡ true
  pub prompt : lt_int c.readiness.timeout c.readiness.interval ≡ true
  pub hidden :
      (c.env ≢ "production")
      ⊎ ((c.admin_addr ≡ "") ⊎ (is_loopback_or_private h c.admin_addr ≡ true))
  pub terse : (c.env ≢ "production") ⊎ (c.readiness.detail ≡ false)

abbrev Holds : Rule → Type 0
Holds r = r.broken ≡ false

snoc_ne : (ps : List Problem) (p : Problem) → and_last ps p ≢ []
snoc_ne [] p f = cc
snoc_ne (q ∷ ps) p f = cc

-- Rules leave no problem just when there was none and they all hold.
apply_rules-none :
    (rs : List Rule) (l : Loader)
    → (apply_rules rs l).problems ≡ []
    → All Holds rs × (l.problems ≡ [])
unfolding apply_rules problem
apply_rules-none [] l e = (tt, e)
apply_rules-none (r ∷ rs) l e = elim (Bool-cases r.broken) [
  | inr b ↦ let (hold, was) = apply_rules-none rs l (rw b at e) in ((b, hold), was)
  | inl b ↦
      let (hold, was) = apply_rules-none rs (problem r.key r.expect l) (rw b at e) in
      absurd (snoc_ne l.problems (record { key = r.key; expect = r.expect }) was)
]

apply_rules-kept :
    (rs : List Rule) (l : Loader)
    → All Holds rs
    → l.problems ≡ []
    → (apply_rules rs l).problems ≡ []
unfolding apply_rules
apply_rules-kept [] l hold e = e
apply_rules-kept (r ∷ rs) l (b, hold) e = rw b (apply_rules-kept rs l hold e)

module _ (h : ChassisHost) (c : Chassis) where
  rules-IsSound : All Holds (rules h c) → IsSound h c
  unfolding rules is_production
  rules-IsSound (debug, (over, (idle, (stale, (slow, (admin, (detail, u))))))) = record {
    quiet = elim (Bool-cases (c.env =s "production")) [
      | inl b ↦ inr (ground arith)
      | inr b ↦ inl (λ e. ground (arith, eq_iff c.env "production"))
    ];
    budgeted = ground arith;
    patient = ground arith;
    lasting = ground arith;
    prompt = ground arith;
    hidden = elim (Bool-cases (c.env =s "production")) [
      | inr b ↦ inl (λ e. ground (arith, eq_iff c.env "production"))
      | inl b ↦ elim (Bool-cases (c.admin_addr =s "")) [
        | inl d ↦ inr (inl (ground (arith, eq_iff c.admin_addr "")))
        | inr d ↦ inr (inr (ground arith))
      ]
    ];
    terse = elim (Bool-cases (c.env =s "production")) [
      | inl b ↦ inr (ground arith)
      | inr b ↦ inl (λ e. ground (arith, eq_iff c.env "production"))
    ];
  }

  IsSound-rules : IsSound h c → All Holds (rules h c)
  unfolding rules is_production
  IsSound-rules s = (
    quiet s.quiet,
    (
      ground (arith, s.budgeted),
      (
        ground (arith, s.patient),
        (
          ground (arith, s.lasting),
          (ground (arith, s.prompt), (hidden s.hidden, (terse s.terse, tt))),
        ),
      ),
    ),
  )
    where
      quiet :
          (c.env ≢ "production") ⊎ (lt_int (negsuc 3) c.log.level ≡ true)
          → debug_in_production h c ≡ false
      quiet (inl n) = ground (arith, n, eq_iff c.env "production")
      quiet (inr b) = ground arith

      hidden :
          (c.env ≢ "production")
            ⊎ ((c.admin_addr ≡ "") ⊎ (is_loopback_or_private h c.admin_addr ≡ true))
          → admin_exposed h c ≡ false
      hidden (inl n) = ground (arith, n, eq_iff c.env "production")
      hidden (inr (inl b)) = ground (arith, eq_iff c.admin_addr "")
      hidden (inr (inr b)) = ground arith

      terse : (c.env ≢ "production") ⊎ (c.readiness.detail ≡ false) → detail_exposed h c ≡ false
      terse (inl n) = ground (arith, n, eq_iff c.env "production")
      terse (inr b) = ground arith

outcome-loaded :
    (c c' : Chassis) (ps : List Problem) → outcome c ps ≡ loaded c' → (c ≡ c') × (ps ≡ [])
unfolding outcome
outcome-loaded c c' [] e = (cc, refl)
outcome-loaded c c' (p ∷ ps) e = absurd (cc)

-- Load gives a configuration just when reading the variables finds no problem, it is the one that was
-- read, and every rule across its fields holds: in production no debug logs, no public address for
-- the admin server and no detail on /readyz; the phases of a shutdown within its budget; an idle
-- timeout above the header's; a stale window above two intervals, and a probe's timeout below one.
pub load_chassis-IsSound :
    (h : ChassisHost) (d : Defaults) (c : Chassis)
    → (load_chassis h d ≡ loaded c)
      ↔ (((bind h d new_loader).0.problems ≡ []) × ((bind h d new_loader).1 ≡ c) × IsSound h c)
unfolding load_chassis validate
load_chassis-IsSound h d c = (there, back)
  where
    l : Loader
    l = (bind h d new_loader).0

    r : Chassis
    r = (bind h d new_loader).1

    there : load_chassis h d ≡ loaded c → (l.problems ≡ []) × (r ≡ c) × IsSound h c
    there e =
        let (same, none_left) = outcome-loaded r c _ e in
        let (hold, was) = apply_rules-none (rules h r) l none_left in
        (was, same, subst (IsSound h) same (rules-IsSound h r hold))

    back : (l.problems ≡ []) × (r ≡ c) × IsSound h c → load_chassis h d ≡ loaded c
    back (was, same, sound) =
        let none_left =
          apply_rules-kept (rules h r) l (IsSound-rules h r (subst (IsSound h) (sym same) sound))
            was in
        ap (outcome r) none_left ∙ ap loaded same

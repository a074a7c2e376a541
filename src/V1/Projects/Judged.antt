-- ===== src/V1/Projects/Judged.antt =====
-- services/api/internal/v1/projects.go: the bodies that createProject accepts.
use cofound.Prelude.{
  ℕ, String, ◌≡◌, ◌≢◌, refl, true, false, Option, some, arith, inl, inr, Option-cases, Bool-cases,
  Bool, ◌==◌, trim_space,
}
use cofound.Errs.Types.{GoError}
use cofound.Errs.Outcome.{Outcome, ok, err}
use cofound.Errs.Code.{codes}
use cofound.V1.Slugs.{slugify, valid_slug}
use cofound.Tenancy.Directory.{Membership}
use cofound.V1.Projects.Create.{
  CreateBody, Wanted, judge_create, judge_org, judge_name, parsed_template, raw_name,
  both_or_neither,
}

judge_name-valid :
    (parse : String → Option ℕ) (b : CreateBody) (name : String) (k : Wanted)
    → judge_name parse b name ≡ ok k
    → valid_slug k.slug ≡ true
unfolding judge_name
judge_name-valid parse b name k e = elim (Option-cases (parsed_template parse b)) [
  | inl n ↦ absurd (ground arith)
  | inr (t, f) ↦ elim (Bool-cases (valid_slug (slugify (codes name)))) [
    | inl v ↦ ground arith
    | inr v ↦ absurd (ground arith)
  ]
]

err_ne : (x : GoError) (k : Wanted) → ◌≢◌ {A = Outcome Wanted} (err x) (ok k)
err_ne x k e = cc

judge_org-ok :
    (parse : String → Option ℕ) (m : Membership) (b : CreateBody) (k : Wanted) (same : Bool)
    → judge_org parse m b same ≡ ok k
    → (same ≡ true) × (valid_slug k.slug ≡ true)
unfolding judge_org
judge_org-ok parse m b k false e = absurd (err_ne _ k e)
judge_org-ok parse m b k true e = elim (Bool-cases (both_or_neither b)) [
  | inl g ↦ absurd (err_ne _ k (rw (g, judge_org) at e))
  | inr g ↦ (refl, judge_name-valid parse b (trim_space (raw_name b)) k (rw (g, judge_org) at e))
]

same_org : (x : Option ℕ) (org i : ℕ) → x ≡ some org → (org == i) ≡ true → x ≡ some i
same_org x org i e d = ground arith

pub judge_create-ok :
    (parse : String → Option ℕ) (m : Membership) (b : CreateBody) (k : Wanted)
    → judge_create parse m b ≡ ok k
    → (parse b.org_id ≡ some m.org_id) × (valid_slug k.slug ≡ true)
unfolding judge_create
judge_create-ok parse m b k e = elim (Option-cases (parse b.org_id)) [
  | inl n ↦ absurd (err_ne _ k (rw (n, judge_create) at e))
  | inr (org, f) ↦
      let (same, v) = judge_org-ok parse m b k (org == m.org_id) (rw (f, judge_create) at e) in
      (same_org (parse b.org_id) org m.org_id f same, v)
]

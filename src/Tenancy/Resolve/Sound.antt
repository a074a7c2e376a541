-- ===== src/Tenancy/Resolve/Sound.antt =====
-- A request that is let through acts for a member of the org, with that member's role.

use cofound.Prelude.{
  ℕ, String, ◌≡◌, ◌≢◌, refl, inl, inr, true, Option, none, some, arith, ◌=s◌, Bool-cases,
}
use cofound.Tenancy.Roles.{Action, can}
use cofound.Tenancy.Directory.{Directory, Refuses, Membership, ok, Outcome-cases}
use cofound.Tenancy.Resolve.{
  by_project_slug, user_only, Request, resolve, enforce, require, granted,
}
use cofound.Tenancy.Resolve.Search.{
  IsTrue, by_org_slug-IsTrue, by_project_and_org-IsTrue, by_project_alone-IsTrue,
}

user_only-IsTrue :
    (bad : Refuses) (d : Directory) (user : ℕ) (hint : String) (m : Membership)
    → user_only bad d user hint ≡ ok m
    → m.org_id ≢ 0
    → IsTrue d user m
unfolding user_only
user_only-IsTrue bad d user hint m e org = elim (Bool-cases (hint =s "")) [
  | inl b ↦ absurd (org (ground arith))
  | inr b ↦ by_org_slug-IsTrue bad d user hint m (ground arith)
]

by_project_slug-IsTrue :
    (bad : Refuses) (d : Directory) (user : ℕ) (slug hint : String) (m : Membership)
    → by_project_slug bad d user slug hint ≡ ok m
    → IsTrue d user m
unfolding by_project_slug
by_project_slug-IsTrue bad d user slug hint m e = elim (Bool-cases (hint =s "")) [
  | inl b ↦ by_project_alone-IsTrue bad d user slug m (ground arith)
  | inr b ↦ by_project_and_org-IsTrue bad d user slug hint m (ground arith)
]

resolve-IsTrue :
    (bad : Refuses) (d : Directory) (user : ℕ) (r : Request) (m : Membership)
    → resolve bad d user r ≡ ok m
    → m.org_id ≢ 0
    → IsTrue d user m
unfolding resolve
resolve-IsTrue bad d user r m e org = elim (Bool-cases (r.org =s "")) [
  | inr b ↦ by_org_slug-IsTrue bad d user r.org m (ground arith)
  | inl b ↦ elim (Bool-cases (r.project =s "")) [
    | inr c ↦ by_project_slug-IsTrue bad d user r.project r.org_header m (ground arith)
    | inl c ↦ user_only-IsTrue bad d user r.org_header m (ground arith) org
  ]
]

enforce-granted :
    (action : Action) (n m : Membership)
    → enforce action n ≡ granted m
    → (n ≡ m) × (m.org_id ≢ 0) × (can m.role action ≡ true)
unfolding enforce
enforce-granted action n m e = ground arith

-- A request that Require lets through, by org, by project with or without the header, or by the
-- header alone, acts for the caller: the caller is a member of the org with the role that the
-- matrix allowed the action to, the org is not nil, and a project that is named is that org's.
pub require-IsTrue :
    (bad : Refuses) (d : Directory) (action : Action) (caller : Option ℕ) (r : Request)
    (m : Membership)
    → require bad d action caller r ≡ granted m
    → (user : ℕ) × (caller ≡ some user)
      × IsTrue d user m
      × (m.org_id ≢ 0)
      × (can m.role action ≡ true)
unfolding require
require-IsTrue bad d action none r m e = absurd (ground arith)
require-IsTrue bad d action (some user) r m e = elim (Outcome-cases (resolve bad d user r)) [
  | inr (x, f) ↦ absurd (ground arith)
  | inl (n, f) ↦
      let (is, org, may) = enforce-granted action n m (ground arith) in
      (user, refl, resolve-IsTrue bad d user r m (rw is at f) org, org, may)
]

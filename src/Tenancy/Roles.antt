-- ===== src/Tenancy/Roles.antt =====
-- services/api/internal/tenancy/roles.go: the permission matrix. A Role and an Action are strings
-- there, so both may be unknown to the matrix.
pub mod Matrix
pub mod Nesting
use cofound.Prelude.{
  ℕ, suc, String, Bool, true, false, Option, none, some, List, [], ◌∷◌, leb, ◌=s◌, contains, lookup,
  if◌then◌else◌,
}

abbrev pub Role : Type 0
Role = String

abbrev pub Action : Type 0
Action = String

abbrev pub role_owner : Role
role_owner = "owner"

abbrev pub role_admin : Role
role_admin = "admin"

abbrev pub role_editor : Role
role_editor = "editor"

abbrev pub role_viewer : Role
role_viewer = "viewer"

-- Most authoritative first.
unfoldable pub ranked : List Role
ranked = role_owner ∷ role_admin ∷ role_editor ∷ role_viewer ∷ []

-- Role.Valid
unfoldable pub is_valid : Role → Bool
unfolding ranked contains
is_valid r = contains ranked r

-- The least authoritative role that may perform each action.
unfoldable pub minimum : List (Action × Role)
minimum =
    ("org.read", role_viewer)
    ∷ ("project.read", role_viewer)
    ∷ ("timeline.read", role_viewer)
    ∷ ("secret.read", role_admin)
    ∷ ("project.create", role_editor)
    ∷ ("project.update", role_editor)
    ∷ ("build", role_editor)
    ∷ ("deploy.preview", role_editor)
    ∷ ("proposal.create", role_editor)
    ∷ ("file.write", role_editor)
    ∷ ("restore", role_editor)
    ∷ ("member.invite", role_admin)
    ∷ ("member.remove", role_admin)
    ∷ ("member.role_change", role_admin)
    ∷ ("secret.write", role_admin)
    ∷ ("domain.change", role_admin)
    ∷ ("deploy.production", role_admin)
    ∷ ("rollback", role_admin)
    ∷ ("capability.install", role_admin)
    ∷ ("repo.link", role_admin)
    ∷ ("proposal.approve", role_admin)
    ∷ ("budget.change", role_admin)
    ∷ ("ads.spend", role_admin)
    ∷ ("domain.purchase", role_admin)
    ∷ ("billing.read", role_owner)
    ∷ ("billing.write", role_owner)
    ∷ ("credit.purchase", role_owner)
    ∷ ("org.delete", role_owner)
    ∷ ("org.transfer", role_owner)
    ∷ ("project.delete", role_owner)
    ∷ []

-- slices.Index, `none` for -1.
unfoldable pub index : List String → String → Option ℕ
index [] s = none
index (x ∷ xs) s =
    let rest = index xs s in
    if x =s s then some 0 else elim rest [ none ↦ none | some i ↦ some (suc i) ]

-- A role's index in `ranked`; lower is more authoritative.
unfoldable pub rank : Role → Option ℕ
unfolding ranked index
rank r = index ranked r

-- `rank` of the needed role ignores its second result there; the index is then -1, below every rank.
unfoldable pub within : Option ℕ → ℕ → Bool
within none have = false
within (some need) have = leb have need

unfoldable pub allows : Role → Role → Bool
unfolding within
allows role need = elim (rank role) [ none ↦ false | some have ↦ within (rank need) have ]

-- Can
unfoldable pub can : Role → Action → Bool
can role action = elim (lookup action minimum) [ none ↦ false | some need ↦ allows role need ]

-- Minimum, where `none` is the error for an unknown action.
unfoldable pub minimum_of : Action → Option Role
minimum_of action = lookup action minimum

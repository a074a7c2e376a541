-- ===== src/Tenancy/Roles/Nesting.antt =====
-- Authority is nested: a higher role may do all that a lower one may.
use cofound.Prelude.{ℕ, ◌≤◌, ◌≡◌, true, some, arith}
use cofound.Tenancy.Roles.{Role, Action, rank, within, can, allows}

-- A role that ranks at least as high as another may do every action that the other may, the
-- billing actions included.
pub can_mono :
    (high low : Role) (action : Action) (i j : ℕ)
    → rank high ≡ some i
    → rank low ≡ some j
    → i ≤ j
    → can low action ≡ true
    → can high action ≡ true
unfolding can allows within
can_mono high low action i j h l le e = ground arith

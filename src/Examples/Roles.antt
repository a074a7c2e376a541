-- ===== src/Examples/Roles.antt =====
-- services/api/internal/tenancy/roles.go at concrete roles.
use cofound.Prelude.{◌≡◌, contains}
use cofound.Tenancy.Roles.{can}
use cofound.Tenancy.Roles.Matrix.{granted, can-granted}

can-granted_example : can "editor" "billing.read" ≡ contains (granted "editor") "billing.read"
can-granted_example = can-granted "editor" "billing.read"

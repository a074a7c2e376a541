-- ===== src/Examples/Requests.antt =====
-- services/api/internal/tenancy/middleware.go on a small directory.
use cofound.Prelude.{
  String, ℕ, ◌≡◌, ◌≢◌, refl, true, false, some, [], ◌∷◌, find, contains, lookup, arith,
}
use cofound.Tenancy.Roles.{can, allows, rank, index, minimum, is_valid, ranked}
use cofound.Tenancy.Directory.{
  Org, Member, Project, Directory, Refuses, Membership, is_project, select_project, joined, place,
  ordered, orgs_for, ok,
}
use cofound.Tenancy.Resolve.{
  Request, absent, by_project_alone, by_project_slug, choose, search_orgs, resolve, enforce,
  require, granted, refused,
}
use cofound.Tenancy.Resolve.Search.{IsTrue}
use cofound.Tenancy.Resolve.Sound.{require-IsTrue}
use cofound.Tenancy.Resolve.Disclosure.{IsStranger, require-stranger}

abbrev acme : Org
acme = record { id = 1; slug = "acme" }

abbrev globex : Org
globex = record { id = 2; slug = "globex" }

abbrev ann : Member
ann = record { org_id = 1; user_id = 7; role = "editor" }

abbrev bob : Member
bob = record { org_id = 2; user_id = 8; role = "owner" }

abbrev shop : Project
shop = record { id = 5; org_id = 1; slug = "shop" }

abbrev town : Directory
town = record { orgs = acme ∷ globex ∷ []; members = ann ∷ bob ∷ []; projects = shop ∷ [] }

abbrev all_go : Refuses
all_go s = false

abbrev shop_request : Request
shop_request = record { org = ""; project = "shop"; org_header = "" }

abbrev globex_request : Request
globex_request = record { org = "globex"; project = ""; org_header = "" }

abbrev ann_in_shop : Membership
ann_in_shop = record { user_id = 7; org_id = 1; role = "editor"; org_slug = "acme"; project_id = 5 }

alone : by_project_alone all_go town 7 "shop" ≡ ok ann_in_shop
unfolding by_project_alone orgs_for ordered place joined find search_orgs select_project is_project
    choose is_valid ranked contains
alone = refl

ann_enters : require all_go town "project.create" (some 7) shop_request ≡ granted ann_in_shop
unfolding require resolve by_project_slug enforce can allows rank index ranked minimum lookup
    by_project_alone orgs_for ordered place joined find search_orgs select_project is_project choose
    is_valid contains
ann_enters = refl

require-IsTrue_example :
    (user : ℕ) × (some 7 ≡ some user)
    × IsTrue town user ann_in_shop
    × (ann_in_shop.org_id ≢ 0)
    × (can ann_in_shop.role "project.create" ≡ true)
require-IsTrue_example =
    require-IsTrue all_go town "project.create" (some 7) shop_request ann_in_shop ann_enters

acme_not_globex : acme.slug ≢ globex.slug
acme_not_globex p = cc

ann-IsStranger : IsStranger town 7 "globex"
ann-IsStranger o m io e im f g = ground (arith, acme_not_globex)

abbrev name_of_org : String
name_of_org = "globex"

named : name_of_org ≢ ""
named p = cc

require-stranger_example :
    require all_go town "org.read" (some 7) globex_request ≡ refused (absent "org" "globex")
require-stranger_example =
    require-stranger all_go town "org.read" 7 globex_request refl named ann-IsStranger

abbrev shop_of_globex : Request
shop_of_globex = record { org = ""; project = "shop"; org_header = "globex" }

project_named : shop_of_globex.project ≢ ""
project_named p = cc

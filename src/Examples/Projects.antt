-- ===== src/Examples/Projects.antt =====
-- The scopes of the database, and the handlers of projects in them, at concrete inputs.
use Prim.Native.String.{count}
use Prim.Native.String.count as Count
use Prim.Native.String as Text
use Prim.Native.Nat.{zero, suc}
use cofound.Prelude.{
  In, inl, inr, ℕ, ◌+◌, String, true, false, Option, ◌≡◌, refl, some, none, [], ◌∷◌, List, sym, ◌∙◌,
  ap, ◌=s◌, if◌then◌else◌,
}
use cofound.Errs.Outcome.{ok}
use cofound.Tenancy.Directory.{Membership}
use cofound.Db.Scope.{
  Principal, Settings, Conn, Ran, returned, panicked, Body, plain, set_config, app_org, scope_as,
}
use cofound.Db.Scope as Scope
use cofound.Db.Confined.{Commits, KeepsSession, clear, borrowed, scope_as-own}
use cofound.V1.Projects.Store.{ProjectRow, Tables, Refuses, new_project}
use cofound.V1.Projects.Create.{CreateBody, create_project}
use cofound.V1.Projects.Reads.{list_projects}
use cofound.V1.Orgs.{OrgBody, OrgTables, create_org}
use cofound.V1.Orgs.Owned.{Owns, create_org-Owns}
use cofound.V1.Projects.Created.{Creates, create_project-Creates}
use cofound.V1.Projects.Whole.{IsWhole}
use cofound.V1.Projects.Runs.{Call, creates, archives, called_all, called_all-IsWhole}
use cofound.V1.Projects.Isolated.{Lists, list_projects-Lists}

abbrev no_failure : Scope.Refuses
no_failure stmt = false

abbrev all_done : Refuses
all_done stmt = false

-- A body that adds one, and tells which org it saw.
abbrev bump : Body ℕ String
bump = plain (λ s n. (n + 1, returned (ok s.org)))

-- One that acts for another org until its transaction ends.
abbrev borrowing : Body ℕ String
borrowing t =
    let u = set_config true app_org "globex" t in (record u { rows = 7 }, returned (ok "globex"))

-- One that panics after it has written.
abbrev crash : Body ℕ String
crash t = (record t { rows = 9 }, panicked)

abbrev acme : Principal
acme = record { org_id = "acme"; user_id = "ada" }

abbrev pooled : Conn ℕ
pooled = record { settings = clear; rows = 3 }

abbrev globex : Principal
globex = record { org_id = "globex"; user_id = "" }

abbrev earlier : List (Scope.Refuses × Principal × Body ℕ String)
earlier = (no_failure, acme, borrowing) ∷ (no_failure, acme, crash) ∷ []

earlier-keeps : (x : Scope.Refuses × Principal × Body ℕ String) → In x earlier → KeepsSession x.2
unfolding set_config
earlier-keeps x (inl e) =
    λ t. ap (λ (y : Scope.Refuses × Principal × Body ℕ String). (y.2 t).0.session) e
earlier-keeps x (inr (inl e)) =
    λ t. ap (λ (y : Scope.Refuses × Principal × Body ℕ String). (y.2 t).0.session) e
earlier-keeps x (inr (inr k)) = absurd k

scope_as-own_example :
    Commits
      (record { org = "globex"; user = "" })
      bump
      (borrowed earlier pooled)
      (scope_as no_failure globex bump (borrowed earlier pooled))
scope_as-own_example = scope_as-own no_failure globex bump earlier pooled refl earlier-keeps

scope_as_runs :
    scope_as no_failure globex bump (borrowed earlier pooled)
    ≡ (record { settings = clear; rows = 8 }, returned (ok "globex"))
unfolding scope_as borrowed set_config plain
scope_as_runs = refl

-- How ids print: a one for each.
unfoldable printed : ℕ → String
printed zero = ""
printed (suc n) = Text.◌∷◌ "1" (printed n)

count-printed : (n : ℕ) → count (printed n) ≡ n
unfolding printed
count-printed zero = Count.nil
count-printed (suc n) = Count.cons "1" (printed n) ∙ ap suc (count-printed n)

printed-injective : (i j : ℕ) → printed i ≡ printed j → i ≡ j
printed-injective i j e = sym (count-printed i) ∙ ap count e ∙ count-printed j

abbrev tables : Tables
tables = record { projects = []; branches = []; templates = (9, true) ∷ []; log = []; next_id = 20 }

abbrev conn : Conn Tables
conn = record { settings = clear; rows = tables }

abbrev member : Membership
member = record { org_id = 1; org_slug = "acme"; user_id = 2; role = "admin"; project_id = 0 }

abbrev parse : String → Option ℕ
parse t = if t =s "1" then some 1 else if t =s "9" then some 9 else none

abbrev body : CreateBody
body = record { org_id = "1"; name = "Shop"; template_version_id = some "9"; prompt = none }

create_project-Creates_example :
    Creates parse member body 50 conn
      (create_project all_done printed no_failure parse member body 50 conn)
create_project-Creates_example =
    create_project-Creates all_done printed no_failure parse member body 50 conn

abbrev calls : List Call
calls =
    creates all_done no_failure parse member body 50
    ∷ archives all_done no_failure (record member { project_id = 20 }) 60
    ∷ creates all_done no_failure parse member body 70
    ∷ []

called_all-IsWhole_example : IsWhole (called_all printed calls conn).rows
called_all-IsWhole_example = called_all-IsWhole printed calls conn refl

abbrev shop : ProjectRow
shop = new_project 1 "Shop" (115 ∷ []) none 50 20

abbrev blog : ProjectRow
blog = new_project 1 "Blog" (98 ∷ []) none 60 22

abbrev foreign : ProjectRow
foreign = new_project 2 "Shop" (115 ∷ []) none 55 24

abbrev mixed : Conn Tables
mixed = record conn { rows = record tables { projects = shop ∷ foreign ∷ blog ∷ [] } }

list_projects-Lists_example : Lists 1 mixed.rows.projects (blog ∷ shop ∷ [])
unfolding list_projects new_project printed plain
list_projects-Lists_example =
    list_projects-Lists printed printed-injective all_done no_failure member mixed
      (blog ∷ shop ∷ []) refl

abbrev org_body : OrgBody
org_body = record { name = "Acme"; slug = some "acme" }

abbrev no_orgs : Conn OrgTables
no_orgs = record { settings = clear; rows = record { orgs = []; members = []; log = [] } }

create_org-Owns_example :
    Owns
      (some 2)
      org_body
      1
      40
      no_orgs
      (create_org (λ s. false) no_failure printed (some 2) org_body 1 40 no_orgs)
create_org-Owns_example =
    create_org-Owns (λ s. false) no_failure printed (some 2) org_body 1 40 no_orgs

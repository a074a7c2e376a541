-- ===== src/Config/Chassis/Rules.antt =====
-- packages/chassis/config/chassis.go: validate, Bind with it, and Load; and error.go, the error that
-- Load returns.
use Prim.Native.String.{◌++◌, compare}
use Prim.Native.Nat.{Ordering}
use cofound.Prelude.{
  ℕ, suc, ◌+◌, ◌-◌, String, Bool, true, false, not, ◌&&◌, none, some, List, [], ◌∷◌, ltb, ◌=s◌,
  length, if◌then◌else◌,
}
use cofound.Config.Parse.{ℤ, pos, negsuc, leb_int}
use cofound.Config.Loader.{Host, Problem, Loader, new_loader, problem}
use cofound.Config.Chassis.{ChassisHost, Chassis, Defaults, is_production, bind}

-- What `a - b` is, for naturals.
abbrev pub difference : ℕ → ℕ → ℤ
difference a b = if ltb a b then negsuc (b - a - 1) else pos (a - b)

abbrev pub add_int : ℤ → ℤ → ℤ
add_int (pos a) (pos b) = pos (a + b)
add_int (pos a) (negsuc b) = difference a (suc b)
add_int (negsuc a) (pos b) = difference b (suc a)
add_int (negsuc a) (negsuc b) = negsuc (suc (a + b))

abbrev pub lt_int : ℤ → ℤ → Bool
lt_int a b = not (leb_int b a)

-- isLoopbackOrPrivate
unfoldable pub is_loopback_or_private : ChassisHost → String → Bool
is_loopback_or_private h addr =
    let host : String = elim (h.split_host addr) [ none ↦ addr | some s ↦ s ] in
    if host =s ""
    then false
    else if host =s "localhost"
    then true
    else elim (h.parse_addr host) [ none ↦ false | some b ↦ b ]

-- A rule: whether it is broken, and the problem that is added where it is.
pub record Rule : Type 0 where
  pub broken : Bool
  pub key : String
  pub expect : String

unfoldable pub apply_rules : List Rule → Loader → Loader
unfolding problem
apply_rules [] l = l
apply_rules (r ∷ rs) l = apply_rules rs (if r.broken then problem r.key r.expect l else l)

-- The sum of the phases. Each lies in its range, so no sum of them wraps around.
unfoldable pub phases : Chassis → ℤ
phases c =
    add_int
      (add_int (add_int c.shutdown.deregister_delay c.shutdown.drain_timeout)
        c.shutdown.server_timeout)
      c.shutdown.telemetry_timeout

module _ (h : ChassisHost) (c : Chassis) where
  abbrev pub debug_in_production : Bool
  debug_in_production = is_production c.env && leb_int c.log.level (negsuc 3)

  abbrev pub over_budget : Bool
  over_budget = lt_int c.shutdown.budget (phases c)

  abbrev pub idle_too_short : Bool
  idle_too_short = leb_int c.http.idle_timeout c.http.read_header_timeout

  abbrev pub stale_too_soon : Bool
  stale_too_soon =
      leb_int c.readiness.stale_after (add_int c.readiness.interval c.readiness.interval)

  abbrev pub slow_probe : Bool
  slow_probe = leb_int c.readiness.interval c.readiness.timeout

  abbrev pub admin_exposed : Bool
  admin_exposed =
      is_production c.env && not (c.admin_addr =s "") && not (is_loopback_or_private h c.admin_addr)

  abbrev pub detail_exposed : Bool
  detail_exposed = is_production c.env && c.readiness.detail

  -- The seven conditions of validate, in order.
  unfoldable pub rules : List Rule
  unfolding is_production phases is_loopback_or_private
  rules =
      record {
        broken = debug_in_production;
        key = "LOG_LEVEL";
        expect =
            "expect info or higher when HALYARD_ENV=production; debug reveals user content (SPEC 17.3)";
      }
      ∷ record {
        broken = over_budget;
        key = "";
        expect =
            "shutdown phases total "
            ++ (h.show_duration (phases c)
                ++ (" but SHUTDOWN_BUDGET is "
                    ++ (h.show_duration c.shutdown.budget
                        ++ "; lower SHUTDOWN_DEREGISTER_DELAY, SHUTDOWN_DRAIN_TIMEOUT, SHUTDOWN_SERVER_TIMEOUT or SHUTDOWN_TELEMETRY_TIMEOUT, or raise the budget")));
      }
      ∷ record {
        broken = idle_too_short;
        key = "HTTP_IDLE_TIMEOUT";
        expect =
            "expect a value greater than HTTP_READ_HEADER_TIMEOUT ("
            ++ (h.show_duration c.http.read_header_timeout ++ ")");
      }
      ∷ record {
        broken = stale_too_soon;
        key = "READINESS_STALE_AFTER";
        expect =
            "expect a value greater than twice READINESS_INTERVAL ("
            ++ (h.show_duration (add_int c.readiness.interval c.readiness.interval) ++ ")");
      }
      ∷ record {
        broken = slow_probe;
        key = "READINESS_TIMEOUT";
        expect =
            "expect a value below READINESS_INTERVAL ("
            ++ (h.show_duration c.readiness.interval ++ ")");
      }
      ∷ record {
        broken = admin_exposed;
        key = "ADMIN_ADDR";
        expect =
            "expect a loopback or private address in production; it exposes pprof and the log-level control";
      }
      ∷ record {
        broken = detail_exposed;
        key = "READINESS_DETAIL";
        expect =
            "expect false in production; /readyz is unauthenticated and detail includes error strings";
      }
      ∷ []

  -- validate
  unfoldable pub validate : Loader → Loader
  unfolding rules apply_rules
  validate l = apply_rules rules l

-- Loader.Err, and what Load returns: the configuration, or every problem.
pub data Loaded : Type 0 where
  loaded : Chassis → Loaded
  invalid : List Problem → Loaded

unfoldable pub outcome : Chassis → List Problem → Loaded
outcome c [] = loaded c
outcome c (p ∷ ps) = invalid (p ∷ ps)

-- Load
unfoldable pub load_chassis : ChassisHost → Defaults → Loaded
unfolding new_loader bind validate outcome
load_chassis h d = let (l, c) = bind h d new_loader in outcome c (validate h c l).problems

-- Problem.Error
unfoldable pub problem_text : Problem → String
problem_text p = if p.key =s "" then p.expect else p.key ++ (": " ++ p.expect)

unfoldable pub problem_lines : List Problem → String
unfolding problem_text
problem_lines [] = ""
problem_lines (p ∷ ps) = "\n  " ++ (problem_text p ++ problem_lines ps)

-- Error.Error
unfoldable pub error_text : Host → List Problem → String
unfolding problem_text problem_lines
error_text h (p ∷ []) = "configuration is invalid: " ++ problem_text p
error_text h ps =
    "configuration is invalid ("
    ++ (h.show_int (pos (length ps)) ++ (" problems):" ++ problem_lines ps))

-- The distinct keys in the order of their bytes: the map and sort.Strings at once.
unfoldable pub place_key : String → List String → List String
place_key k [] = k ∷ []
place_key k (x ∷ xs) =
    let later = x ∷ place_key k xs in
    elim (compare k x) [ Ordering.lt ↦ k ∷ x ∷ xs | Ordering.eq ↦ x ∷ xs | Ordering.gt ↦ later ]

-- Error.Keys
unfoldable pub error_keys : List Problem → List String
unfolding place_key
error_keys [] = []
error_keys (p ∷ ps) = let rest = error_keys ps in if p.key =s "" then rest else place_key p.key rest

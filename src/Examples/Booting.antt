-- ===== src/Examples/Booting.antt =====
-- packages/chassis/config/chassis.go in an environment that sets one variable.
use cofound.Prelude.{
  ℕ, ◌+◌, ◌*◌, ◌≤◌, ◌≡◌, ◌↔◌, refl, false, none, some, [], ◌=s◌, contains, trim_space, trim_left,
  trim_right, is_space, if◌then◌else◌,
}
use cofound.Config.Parse.{pos}
use cofound.Config.Loader.{
  new_loader, value_of, mark_secret, raw, record_value, read_string, read_enum, judged_as,
  settle_as, read_as, read_int, read_bool, read_bytes, read_duration, judge_duration, read_level,
}
use cofound.Config.Reads.{
  secret_url, settle_secret, read_cidrs, read_list, settle_list, read_key_values,
}
use cofound.Config.Chassis.{
  ChassisHost, Chassis, Defaults, is_production, settle_ratio, optional_ratio, bind_log, bind_otel,
  bind_http, bind_shutdown, bind_readiness, bind, minute,
}
use cofound.Config.Chassis.Rules.{
  apply_rules, rules, validate, phases, loaded, outcome, load_chassis,
}
use cofound.Config.Chassis.Accepted.{IsSound, load_chassis-IsSound}
use cofound.Config.Chassis.Ranges.{FitsBudget, load_chassis-budget}

abbrev host : ChassisHost
host = record {
  base = record {
    get = λ k. if k =s "SHUTDOWN_BUDGET" then some "30s" else none;
    show_int = λ n. "n";
    parse_duration = λ s. if s =s "30s" then some (pos 30000000000) else none;
    show_duration = λ n. "d";
    parse_level = λ s. none;
    show_level = λ n. "info";
    parse_url = λ s. none;
    is_prefix = λ s. false;
    digest = λ s. "00ff";
  };
  parse_ratio = λ s. none;
  split_host = λ s. none;
  parse_addr = λ s. none;
}

abbrev build : Defaults
build = record { service = "api"; version = "v1"; commit = "abc" }

abbrev chassis : Chassis
chassis = (bind host build new_loader).1

accepted : load_chassis host build ≡ loaded chassis
unfolding load_chassis bind new_loader validate rules apply_rules phases outcome is_production
    bind_log bind_otel bind_http bind_shutdown bind_readiness read_string read_enum read_level
    read_bool read_bytes read_int read_duration read_as settle_as judged_as judge_duration raw
    value_of record_value read_key_values read_list settle_list mark_secret optional_ratio
    settle_ratio secret_url settle_secret read_cidrs contains trim_space trim_left trim_right
    is_space
accepted = refl

load_chassis-IsSound_example : (load_chassis host build ≡ loaded chassis) ↔ (
    ((bind host build new_loader).0.problems ≡ [])
    × ((bind host build new_loader).1 ≡ chassis)
    × IsSound host chassis)
load_chassis-IsSound_example = load_chassis-IsSound host build chassis

load_chassis-budget_example :
    FitsBudget chassis.shutdown
    × ((a b s t m : ℕ) × (chassis.shutdown.deregister_delay ≡ pos a)
        × (chassis.shutdown.drain_timeout ≡ pos b)
        × (chassis.shutdown.server_timeout ≡ pos s)
        × (chassis.shutdown.telemetry_timeout ≡ pos t)
        × (chassis.shutdown.budget ≡ pos m)
        × (a + b + s + t ≤ m)
        × (m ≤ 15 * minute))
load_chassis-budget_example = load_chassis-budget host build chassis accepted

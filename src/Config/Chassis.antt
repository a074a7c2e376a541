-- ===== src/Config/Chassis.antt =====
-- packages/chassis/config/chassis.go: the configuration that every service shares, how it is read,
-- and the rules across its fields. A duration is in nanoseconds, and a float is its printed text.
pub mod Rules
pub mod Accepted
pub mod Ranges
use Prim.Native.String.{◌++◌}
use cofound.Prelude.{
  ℕ, suc, ◌+◌, ◌-◌, ◌*◌, String, Bool, true, false, not, ◌&&◌, ◌||◌, Option, none, some, List, [],
  ◌∷◌, ltb, ◌=s◌, if◌then◌else◌,
}
use cofound.Config.Parse.{ℤ, pos, negsuc, leb_int}
use cofound.Config.Loader.{
  Url, Host, text, Problem, Loader, new_loader, problem, raw, record_value, read_string, read_enum,
  read_int, read_bytes, read_bool, read_duration, read_level,
}
use cofound.Config.Reads.{secret_url, read_cidrs, read_key_values}

abbrev pub ms : ℕ
ms = 1000000

abbrev pub second : ℕ
second = 1000000000

abbrev pub minute : ℕ
minute = 60000000000

abbrev pub seconds : ℕ → ℤ
seconds n = pos (n * second)

abbrev pub minutes : ℕ → ℤ
minutes n = pos (n * minute)

-- Host, with what else the source has from packages outside the repository: a float with whether it
-- lies in [0, 1], the host of an address with a port, and of an IP whether it is loopback, private or
-- link-local.
pub record ChassisHost : Type 0 where
  pub base : Host
  pub open base use *
  pub parse_ratio : String → Option (String × Bool)
  pub split_host : String → Option String
  pub parse_addr : String → Option Bool

pub record Log : Type 0 where
  pub level : ℤ
  pub format : String
  pub add_source : Bool

pub record OTel : Type 0 where
  pub endpoint : String
  pub protocol : String
  pub headers : Option (List (String × String))
  pub sample_ratio : Option String
  pub shutdown_timeout : ℤ

pub record Http : Type 0 where
  pub read_header_timeout : ℤ
  pub read_timeout : ℤ
  pub write_timeout : ℤ
  pub idle_timeout : ℤ
  pub handler_timeout : ℤ
  pub max_header_bytes : ℤ
  pub max_header_values : ℤ
  pub max_body_bytes : ℤ

pub record Shutdown : Type 0 where
  pub deregister_delay : ℤ
  pub drain_timeout : ℤ
  pub server_timeout : ℤ
  pub telemetry_timeout : ℤ
  pub budget : ℤ

pub record Readiness : Type 0 where
  pub interval : ℤ
  pub timeout : ℤ
  pub stale_after : ℤ
  pub detail : Bool

-- Defaults
pub record Defaults : Type 0 where
  pub service : String
  pub version : String
  pub commit : String

-- Chassis
pub record Chassis : Type 0 where
  pub defaults : Defaults
  pub env : String
  pub instance_id : String
  pub addr : String
  pub admin_addr : String
  pub log : Log
  pub otel : OTel
  pub sentry : Option Url
  pub http : Http
  pub shutdown : Shutdown
  pub readiness : Readiness
  pub trusted_proxies : Option (List String)
  pub trust_inbound : Bool

-- IsProduction
unfoldable pub is_production : String → Bool
is_production env = env =s "production"

-- OptionalFloat, in [0, 1].
unfoldable pub judged_ratio : String → Option (String × Bool) → Loader → Loader × Option String
unfolding problem record_value
judged_ratio key none l =
    (record_value key (text "invalid") (problem key "expect a number" l), none)
judged_ratio key (some (f, within)) l =
    if within
    then (record_value key (text f) l, some f)
    else (record_value key (text "invalid") (problem key "expect a number in [0, 1]" l), none)

unfoldable pub settle_ratio : ChassisHost → String → Option String → Loader → Loader × Option String
unfolding judged_ratio record_value
settle_ratio h key none l = (record_value key (text "unset") l, none)
settle_ratio h key (some s) l = judged_ratio key (h.parse_ratio s) l

unfoldable pub optional_ratio : ChassisHost → String → Loader → Loader × Option String
unfolding settle_ratio raw
optional_ratio h key l = let (m, o) = raw h.base key l in settle_ratio h key o m

abbrev pub deregister_default : String → ℤ
deregister_default env = if env =s "development" then pos 0 else seconds 3

module _ (h : ChassisHost) where
  abbrev duration : String → ℤ → ℤ → ℤ → Loader → Loader × ℤ
  duration key d low high l = read_duration h.base key d low high l

  -- Bind, of the log. Debug is -4 and info 0.
  unfoldable pub bind_log : String → Loader → Loader × Log
  unfolding read_level read_enum read_bool is_production
  bind_log env l =
      let (l1, level) = read_level h.base "LOG_LEVEL" (pos 0) l in
      let (l2, format) = read_enum h.base "LOG_FORMAT" "json" ("json" ∷ "text" ∷ []) l1 in
      let (l3, source) = read_bool h.base "LOG_SOURCE" (not (is_production env)) l2 in
      (l3, record { level = level; format = format; add_source = source })

  -- Bind, of OTel.
  unfoldable pub bind_otel : Loader → Loader × OTel
  unfolding read_string read_enum read_key_values optional_ratio
  bind_otel l =
      let (l1, endpoint) = read_string h.base "OTEL_EXPORTER_OTLP_ENDPOINT" "" l in
      let (l2, protocol) =
        read_enum h.base "OTEL_EXPORTER_OTLP_PROTOCOL" "http/protobuf"
          ("http/protobuf" ∷ "grpc" ∷ []) l1 in
      let (l3, headers) = read_key_values h.base "OTEL_EXPORTER_OTLP_HEADERS" l2 in
      let (l4, ratio) = optional_ratio h "OTEL_TRACES_SAMPLER_ARG" l3 in
      let (l5, timeout) = duration "OTEL_SHUTDOWN_TIMEOUT" (seconds 5) (seconds 1) (minutes 1) l4 in
      (
        l5,
        record {
          endpoint = endpoint;
          protocol = protocol;
          headers = headers;
          sample_ratio = ratio;
          shutdown_timeout = timeout;
        },
      )

  -- Bind, of HTTP.
  unfoldable pub bind_http : Loader → Loader × Http
  unfolding read_duration read_bytes read_int
  bind_http l =
      let (l1, header) =
        duration "HTTP_READ_HEADER_TIMEOUT" (seconds 5) (seconds 1) (minutes 1) l in
      let (l2, read) = duration "HTTP_READ_TIMEOUT" (seconds 30) (seconds 1) (minutes 10) l1 in
      let (l3, write) = duration "HTTP_WRITE_TIMEOUT" (seconds 30) (pos 0) (minutes 10) l2 in
      let (l4, idle) = duration "HTTP_IDLE_TIMEOUT" (seconds 120) (seconds 1) (minutes 30) l3 in
      let (l5, handler) = duration "HTTP_HANDLER_TIMEOUT" (seconds 15) (seconds 1) (minutes 5) l4 in
      let (l6, bytes) = read_bytes h.base "HTTP_MAX_HEADER_BYTES" (pos 1048576) l5 in
      let (l7, values) =
        read_int h.base "HTTP_MAX_HEADER_VALUES" (pos 500) (pos 1) (pos 100000) l6 in
      let (l8, body) = read_bytes h.base "HTTP_MAX_BODY_BYTES" (pos 1048576) l7 in
      (
        l8,
        record {
          read_header_timeout = header;
          read_timeout = read;
          write_timeout = write;
          idle_timeout = idle;
          handler_timeout = handler;
          max_header_bytes = bytes;
          max_header_values = values;
          max_body_bytes = body;
        },
      )

  -- Bind, of Shutdown.
  unfoldable pub bind_shutdown : String → Loader → Loader × Shutdown
  unfolding read_duration
  bind_shutdown env l =
      let (l1, deregister) =
        duration "SHUTDOWN_DEREGISTER_DELAY" (deregister_default env) (pos 0) (minutes 1) l in
      let (l2, drain) = duration "SHUTDOWN_DRAIN_TIMEOUT" (seconds 10) (pos 0) (minutes 10) l1 in
      let (l3, server) =
        duration "SHUTDOWN_SERVER_TIMEOUT" (seconds 5) (seconds 1) (minutes 5) l2 in
      let (l4, telemetry) =
        duration "SHUTDOWN_TELEMETRY_TIMEOUT" (seconds 5) (seconds 1) (minutes 1) l3 in
      let (l5, budget) = duration "SHUTDOWN_BUDGET" (seconds 25) (seconds 1) (minutes 15) l4 in
      (
        l5,
        record {
          deregister_delay = deregister;
          drain_timeout = drain;
          server_timeout = server;
          telemetry_timeout = telemetry;
          budget = budget;
        },
      )

  -- Bind, of Readiness.
  unfoldable pub bind_readiness : Loader → Loader × Readiness
  unfolding read_duration read_bool
  bind_readiness l =
      let (l1, interval) =
        duration "READINESS_INTERVAL" (seconds 2) (pos (100 * ms)) (minutes 1) l in
      let (l2, timeout) = duration "READINESS_TIMEOUT" (seconds 1) (pos (50 * ms)) (minutes 1) l1 in
      let (l3, stale) = duration "READINESS_STALE_AFTER" (seconds 10) (seconds 1) (minutes 10) l2 in
      let (l4, detail) = read_bool h.base "READINESS_DETAIL" false l3 in
      (l4, record { interval = interval; timeout = timeout; stale_after = stale; detail = detail })

  -- Bind, but for the rules.
  unfoldable pub bind : Defaults → Loader → Loader × Chassis
  unfolding read_enum read_string bind_log bind_otel secret_url bind_http bind_shutdown
      bind_readiness read_cidrs read_bool
  bind d l =
      let (l1, env) =
        read_enum h.base "HALYARD_ENV" "development" ("development" ∷ "staging" ∷ "production" ∷ [])
          l in
      let (l2, id) = read_string h.base "INSTANCE_ID" "" l1 in
      let (l3, addr) = read_string h.base "HTTP_ADDR" ":8080" l2 in
      let (l4, admin) = read_string h.base "ADMIN_ADDR" "" l3 in
      let (l5, log) = bind_log env l4 in
      let (l6, otel) = bind_otel l5 in
      let (l7, sentry) = secret_url h.base "SENTRY_DSN" false ("https" ∷ "http" ∷ []) l6 in
      let (l8, http) = bind_http l7 in
      let (l9, shutdown) = bind_shutdown env l8 in
      let (l10, readiness) = bind_readiness l9 in
      let (l11, proxies) = read_cidrs h.base "TRUSTED_PROXY_CIDRS" l10 in
      let (l12, trust) = read_bool h.base "TRUST_INBOUND_REQUEST_ID" false l11 in
      (
        l12,
        record {
          defaults = d;
          env = env;
          instance_id = id;
          addr = addr;
          admin_addr = admin;
          log = log;
          otel = otel;
          sentry = sentry;
          http = http;
          shutdown = shutdown;
          readiness = readiness;
          trusted_proxies = proxies;
          trust_inbound = trust;
        },
      )

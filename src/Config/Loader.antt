-- ===== src/Config/Loader.antt =====
-- packages/chassis/config/loader.go: the Loader and its accessors of one value. Each one takes the
-- loader and gives the next one with the value read. Float and OptionalFloat are left out.
use Prim.Native.String.{◌++◌}
use cofound.Prelude.{
  String, Bool, ◌&&◌, Option, none, some, List, [], ◌∷◌, and_last, ◌=s◌, contains, join, trim_space,
  is_none, if◌then◌else◌,
}
use cofound.Config.Parse.{ℤ, pos, leb_int, atoi, parse_bytes, parse_bool}

-- A parsed URL: its host, its scheme, and its text without the password.
pub record Url : Type 0 where
  pub host : String
  pub scheme : String
  pub redacted : String

-- The environment, and what the source has from packages outside the repository: the parsers and
-- printers of the standard library, and the first bytes of sha256 in hex.
pub record Host : Type 0 where
  pub get : String → Option String
  pub show_int : ℤ → String
  pub parse_duration : String → Option ℤ
  pub show_duration : ℤ → String
  pub parse_level : String → Option ℤ
  pub show_level : ℤ → String
  pub parse_url : String → Option Url
  pub is_prefix : String → Bool
  pub digest : String → String

-- slog.Value, for the kinds that are recorded.
pub data Value : Type 0 where
  text : String → Value
  number : ℤ → Value
  flag : Bool → Value
  texts : List String → Value

-- Problem
pub record Problem : Type 0 where
  pub key : String
  pub expect : String

-- resolvedKey
pub record ResolvedKey : Type 0 where
  pub key : String
  pub value : Value
  pub secret : Bool

-- Loader, without its Lookup.
pub record Loader : Type 0 where
  pub problems : List Problem
  pub resolved : List ResolvedKey
  pub secrets : List String
  pub provided : List String

-- NewLoader
unfoldable pub new_loader : Loader
new_loader = record { problems = []; resolved = []; secrets = []; provided = [] }

-- Problemf
unfoldable pub problem : String → String → Loader → Loader
problem key expect l = record l {
  problems = and_last l.problems (record { key = key; expect = expect });
}

-- MarkSecret
unfoldable pub mark_secret : String → Loader → Loader
mark_secret key l = record l { secrets = key ∷ l.secrets }

-- The text of a variable, unless it is absent or blank.
unfoldable pub value_of : Host → String → Option String
value_of h key = elim (h.get key) [
  | none ↦ none
  | some v ↦ if trim_space v =s "" then none else some (trim_space v)
]

-- raw
unfoldable pub raw : Host → String → Loader → Loader × Option String
raw h key l = elim (value_of h key) [
  | none ↦ (l, none)
  | some v ↦ (record l { provided = key ∷ l.provided }, some v)
]

-- Set
unfoldable pub is_set : String → Loader → Bool
is_set key l = contains l.provided key

-- record
unfoldable pub record_value : String → Value → Loader → Loader
record_value key v l = record l {
  resolved = and_last l.resolved (record { key = key; value = v; secret = contains l.secrets key });
}

abbrev pub or_text : Option String → String → String
or_text none d = d
or_text (some v) d = v

-- String
unfoldable pub read_string : Host → String → String → Loader → Loader × String
unfolding raw record_value
read_string h key d l =
    let (m, o) = raw h key l in (record_value key (text (or_text o d)) m, or_text o d)

-- RequiredString
unfoldable pub required_string : Host → String → Loader → Loader × String
unfolding raw record_value problem
required_string h key l =
    let (m, o) = raw h key l in
    (
      record_value key (text (or_text o "")) (if is_none o then problem key "is required" m else m),
      or_text o "",
    )

-- Enum
unfoldable pub read_enum : Host → String → String → List String → Loader → Loader × String
unfolding raw record_value problem
read_enum h key d allowed l =
    let (m, o) = raw h key l in
    if contains allowed (or_text o d)
    then (record_value key (text (or_text o d)) m, or_text o d)
    else (record_value key (text d) (problem key ("expect one of " ++ join ", " allowed) m), d)

-- What a text is worth: the value, or the shape that was wanted.
pub data Judged {ℓ} (A : Type ℓ) : Type ℓ where
  fits : A → Judged A
  fails : String → Judged A

-- The accessors that keep the default when the text fails, from what raw gives.
unfoldable pub judged_as : {A : Type 0} → (A → Value) → String → A → Judged A → Loader → Loader × A
unfolding record_value problem
judged_as show key d (fits v) m = (record_value key (show v) m, v)
judged_as show key d (fails expect) m = (record_value key (show d) (problem key expect m), d)

unfoldable pub settle_as :
    {A : Type 0}
    → (A → Value)
    → (String → Judged A)
    → String
    → A
    → Option String
    → Loader
    → Loader × A
unfolding record_value judged_as
settle_as show judge key d none m = (record_value key (show d) m, d)
settle_as show judge key d (some s) m = judged_as show key d (judge s) m

unfoldable pub read_as :
    {A : Type 0} → Host → (A → Value) → (String → Judged A) → String → A → Loader → Loader × A
unfolding raw settle_as
read_as h show judge key d l = let (m, o) = raw h key l in settle_as show judge key d o m

abbrev pub is_within : ℤ → ℤ → ℤ → Bool
is_within low high n = leb_int low n && leb_int n high

unfoldable pub judge_int : Host → ℤ → ℤ → String → Judged ℤ
judge_int h low high s = elim (atoi s) [
  | none ↦ fails "expect an integer"
  | some n ↦
      if is_within low high n
      then fits n
      else fails
          ("expect an integer in [" ++ (h.show_int low ++ (", " ++ (h.show_int high ++ "]"))))
]

-- Int
unfoldable pub read_int : Host → String → ℤ → ℤ → ℤ → Loader → Loader × ℤ
unfolding read_as judge_int
read_int h key d low high l = read_as h number (judge_int h low high) key d l

-- Port
unfoldable pub read_port : Host → String → ℤ → Loader → Loader × ℤ
unfolding read_int
read_port h key d l = read_int h key d (pos 1) (pos 65535) l

abbrev pub judge_bytes : String → Judged ℤ
judge_bytes s = elim (parse_bytes s) [
  | none ↦ fails "expect a byte count, e.g. 1048576, 1MB or 512KB"
  | some n ↦ if leb_int n (pos 0) then fails "expect a positive byte count" else fits n
]

-- Bytes
unfoldable pub read_bytes : Host → String → ℤ → Loader → Loader × ℤ
unfolding read_as
read_bytes h key d l = read_as h number judge_bytes key d l

abbrev pub judge_bool : String → Judged Bool
judge_bool s = elim (parse_bool s) [
  | none ↦ fails "expect a boolean, e.g. true or false"
  | some b ↦ fits b
]

-- Bool
unfoldable pub read_bool : Host → String → Bool → Loader → Loader × Bool
unfolding read_as
read_bool h key d l = read_as h flag judge_bool key d l

unfoldable pub judge_duration : Host → ℤ → ℤ → String → Judged ℤ
judge_duration h low high s = elim (h.parse_duration s) [
  | none ↦ fails "expect a duration, e.g. 30s, 500ms or 2m"
  | some n ↦
      if is_within low high n
      then fits n
      else fails (
          "expect a duration in ["
          ++ (h.show_duration low ++ (", " ++ (h.show_duration high ++ "]"))))
]

-- Duration
unfoldable pub read_duration : Host → String → ℤ → ℤ → ℤ → Loader → Loader × ℤ
unfolding read_as judge_duration
read_duration h key d low high l =
    read_as h (λ n. text (h.show_duration n)) (judge_duration h low high) key d l

abbrev pub judge_level : Host → String → Judged ℤ
judge_level h s = elim (h.parse_level s) [
  | none ↦ fails "expect a log level: debug, info, warn or error"
  | some n ↦ fits n
]

-- Level
unfoldable pub read_level : Host → String → ℤ → Loader → Loader × ℤ
unfolding read_as
read_level h key d l = read_as h (λ n. text (h.show_level n)) (judge_level h) key d l

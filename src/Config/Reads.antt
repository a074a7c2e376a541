-- ===== src/Config/Reads.antt =====
-- packages/chassis/config/loader.go: the accessors of URLs and lists, what the boot line renders, and
-- a service's binding of its variables as a list of reads.
use Prim.Native.String.{◌++◌}
use cofound.Prelude.{
  String, Bool, true, false, not, ◌&&◌, Option, none, some, List, [], ◌∷◌, ◌=s◌, contains, join,
  trim_space, length, assign, if◌then◌else◌,
}
use cofound.Config.Parse.{ℤ, pos, split_comma, cut_equals, parts_of}
use cofound.Config.Loader.{
  Url, Host, Value, text, number, flag, texts, ResolvedKey, Loader, problem, mark_secret, raw,
  record_value, or_text, Judged, fits, fails, read_string, required_string, read_enum, read_int,
  read_bytes, read_bool, read_duration, read_level,
}

abbrev pub no_schemes : List String → Bool
no_schemes [] = true
no_schemes (s ∷ ss) = false

-- An absolute URL with one of the schemes, if there are any.
unfoldable pub judge_url : Host → List String → String → Judged Url
judge_url h schemes s = elim (h.parse_url s) [
  | none ↦ fails "expect an absolute URL"
  | some u ↦
      if u.host =s ""
      then fails "expect an absolute URL"
      else if not (no_schemes schemes) && not (contains schemes u.scheme)
      then fails ("expect a URL with scheme " ++ join " or " schemes)
      else fits u
]

-- What a list or a URL is read as: the value, or none where the text fails.
unfoldable pub record_judged :
    {A : Type 0} → String → (A → Value) → Judged A → Loader → Loader × Option A
unfolding record_value problem
record_judged key show (fits a) l = (record_value key (show a) l, some a)
record_judged key show (fails expect) l =
    (record_value key (text "invalid") (problem key expect l), none)

unfoldable pub settle_url : Host → String → List String → String → Loader → Loader × Option Url
unfolding record_value judge_url record_judged
settle_url h key schemes s m =
    if s =s ""
    then (record_value key (text "") m, none)
    else record_judged key (λ u. text u.redacted) (judge_url h schemes s) m

-- URL
unfoldable pub read_url : Host → String → String → List String → Loader → Loader × Option Url
unfolding raw settle_url
read_url h key d schemes l = let (m, o) = raw h key l in settle_url h key schemes (or_text o d) m

-- SecretURL
unfoldable pub settle_secret :
    Host → String → Bool → List String → Option String → Loader → Loader × Option Url
unfolding record_value problem judge_url record_judged
settle_secret h key must schemes none m =
    (record_value key (text "") (if must then problem key "is required" m else m), none)
settle_secret h key must schemes (some s) m =
    record_judged key (λ u. text s) (judge_url h schemes s) m

unfoldable pub secret_url : Host → String → Bool → List String → Loader → Loader × Option Url
unfolding mark_secret raw settle_secret
secret_url h key must schemes l =
    let (m, o) = raw h key (mark_secret key l) in settle_secret h key must schemes o m

unfoldable pub all_prefixes : Host → List String → Bool
all_prefixes h [] = true
all_prefixes h (s ∷ ss) = h.is_prefix s && all_prefixes h ss

unfoldable pub judge_cidrs : Host → String → Judged (List String)
unfolding all_prefixes
judge_cidrs h s =
    if all_prefixes h (parts_of (split_comma s))
    then fits (parts_of (split_comma s))
    else fails "expect a comma-separated list of CIDR prefixes, e.g. 10.0.0.0/8"

-- The accessors of lists: nothing when the variable is absent.
unfoldable pub settle_list :
    {A : Type 0}
    → String
    → (A → Value)
    → (String → Judged A)
    → Option String
    → Loader
    → Loader × Option A
unfolding record_value record_judged
settle_list key show judge none m = (record_value key (number (pos 0)) m, none)
settle_list key show judge (some s) m = record_judged key show (judge s) m

unfoldable pub read_list :
    {A : Type 0} → Host → String → (A → Value) → (String → Judged A) → Loader → Loader × Option A
unfolding raw settle_list
read_list h key show judge l = let (m, o) = raw h key l in settle_list key show judge o m

-- CIDRs, as the texts of the prefixes.
unfoldable pub read_cidrs : Host → String → Loader → Loader × Option (List String)
unfolding read_list judge_cidrs
read_cidrs h key l = read_list h key (λ ps. number (pos (length ps))) (judge_cidrs h) l

abbrev pub or_parts : Option String → List String → List String
or_parts none d = d
or_parts (some s) d = parts_of (split_comma s)

-- CSV
unfoldable pub read_csv : Host → String → List String → Loader → Loader × List String
unfolding raw record_value
read_csv h key d l =
    let (m, o) = raw h key l in (record_value key (texts (or_parts o d)) m, or_parts o d)

unfoldable pub pairs_of : List String → List (String × String) → Judged (List (String × String))
pairs_of [] kvs = fits kvs
pairs_of (s ∷ ss) kvs = elim (cut_equals s) [
  | none ↦ fails "expect a comma-separated key=value list"
  | some kv ↦
      if trim_space kv.0 =s ""
      then fails "expect a comma-separated key=value list"
      else pairs_of ss (assign (trim_space kv.0) (trim_space kv.1) kvs)
]

-- KeyValues
unfoldable pub read_key_values : Host → String → Loader → Loader × Option (List (String × String))
unfolding mark_secret read_list pairs_of
read_key_values h key l =
    read_list h key (λ kvs. number (pos (length kvs))) (λ s. pairs_of (parts_of (split_comma s)) [])
      (mark_secret key l)

-- slog.Value.String
abbrev pub value_text : Host → Value → String
value_text h (text s) = s
value_text h (number n) = h.show_int n
value_text h (flag b) = if b then "true" else "false"
value_text h (texts ss) = "[" ++ join " " ss ++ "]"

-- fingerprint
unfoldable pub fingerprint : Host → Value → String
fingerprint h v =
    let s = value_text h v in
    if s =s "" then "unset" else if s =s "0" then "unset" else "set (sha256:" ++ h.digest s ++ ")"

abbrev pub rendered : Host → ResolvedKey → String × Value
rendered h r = (r.key, if r.secret then text (fingerprint h r.value) else r.value)

unfoldable pub render_all : Host → List ResolvedKey → List (String × Value)
unfolding fingerprint
render_all h [] = []
render_all h (r ∷ rs) = rendered h r ∷ render_all h rs

-- Resolved
unfoldable pub resolved_attrs : Host → Loader → List (String × Value)
unfolding render_all
resolved_attrs h l = render_all h l.resolved

-- One line of a service's binding.
pub data Read : Type 0 where
  marks : String → Read
  string_of : String → String → Read
  required : String → Read
  enum_of : String → String → List String → Read
  int_of : String → ℤ → ℤ → ℤ → Read
  bytes_of : String → ℤ → Read
  bool_of : String → Bool → Read
  duration_of : String → ℤ → ℤ → ℤ → Read
  level_of : String → ℤ → Read
  url_of : String → String → List String → Read
  secret_url_of : String → Bool → List String → Read
  cidrs_of : String → Read
  csv_of : String → List String → Read
  key_values_of : String → Read

unfoldable pub apply : Host → Read → Loader → Loader
unfolding mark_secret read_string required_string read_enum read_int read_bytes read_bool
    read_duration read_level read_url secret_url read_cidrs read_csv read_key_values
apply h (marks k) l = mark_secret k l
apply h (string_of k d) l = (read_string h k d l).0
apply h (required k) l = (required_string h k l).0
apply h (enum_of k d allowed) l = (read_enum h k d allowed l).0
apply h (int_of k d low high) l = (read_int h k d low high l).0
apply h (bytes_of k d) l = (read_bytes h k d l).0
apply h (bool_of k d) l = (read_bool h k d l).0
apply h (duration_of k d low high) l = (read_duration h k d low high l).0
apply h (level_of k d) l = (read_level h k d l).0
apply h (url_of k d schemes) l = (read_url h k d schemes l).0
apply h (secret_url_of k must schemes) l = (secret_url h k must schemes l).0
apply h (cidrs_of k) l = (read_cidrs h k l).0
apply h (csv_of k d) l = (read_csv h k d l).0
apply h (key_values_of k) l = (read_key_values h k l).0

unfoldable pub load : Host → List Read → Loader → Loader
unfolding apply
load h [] l = l
load h (r ∷ rs) l = load h rs (apply h r l)

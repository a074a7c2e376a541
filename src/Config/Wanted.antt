-- ===== src/Config/Wanted.antt =====
-- The texts of the problems that each read can report, from the read alone.
use Prim.Native.String.{◌++◌}
use cofound.Prelude.{
  ◌≡◌, ◌⊎◌, refl, inl, inr, String, Bool, true, false, Option, List, [], ◌∷◌, In, Bool-cases,
  Option-cases, join, trim_space, ◌=s◌, assign, length,
}
use cofound.Config.Parse.{
  ℤ, pos, atoi, parse_bytes, parse_bool, leb_int, split_comma, cut_equals, parts_of,
}
use cofound.Config.Loader.{
  Host, text, number, flag, mark_secret, fails, is_within, read_int, judge_int, read_bytes,
  judge_bytes, read_bool, judge_bool, read_duration, judge_duration, read_level, judge_level,
}
use cofound.Config.Reads.{
  read_cidrs, judge_cidrs, all_prefixes, read_key_values, pairs_of, Read, marks, string_of,
  required, enum_of, int_of, bytes_of, bool_of, duration_of, level_of, url_of, secret_url_of,
  cidrs_of, csv_of, key_values_of, apply,
}
use cofound.Config.Shape.{
  same_text, fits_fails, Shaped, read_as-Shaped, read_string-Shaped, required_string-Shaped,
  read_enum-Shaped, read_list-Shaped, read_csv-Shaped, read_url-Shaped, secret_url-Shaped,
}

abbrev pub range_of : String → String → String
range_of low high = low ++ (", " ++ (high ++ "]"))

-- What a read may ask for. Only the printers of numbers are used of the host.
abbrev pub wanted : Host → Read → List String
wanted h (required k) = "is required" ∷ []
wanted h (enum_of k d allowed) = ("expect one of " ++ join ", " allowed) ∷ []
wanted h (int_of k d low high) =
    "expect an integer"
    ∷ ("expect an integer in [" ++ range_of (h.show_int low) (h.show_int high))
    ∷ []
wanted h (bytes_of k d) =
    "expect a byte count, e.g. 1048576, 1MB or 512KB" ∷ "expect a positive byte count" ∷ []
wanted h (bool_of k d) = "expect a boolean, e.g. true or false" ∷ []
wanted h (duration_of k d low high) =
    "expect a duration, e.g. 30s, 500ms or 2m"
    ∷ ("expect a duration in [" ++ range_of (h.show_duration low) (h.show_duration high))
    ∷ []
wanted h (level_of k d) = "expect a log level: debug, info, warn or error" ∷ []
wanted h (url_of k d schemes) =
    "expect an absolute URL" ∷ ("expect a URL with scheme " ++ join " or " schemes) ∷ []
wanted h (secret_url_of k must schemes) =
    "is required"
    ∷ "expect an absolute URL"
    ∷ ("expect a URL with scheme " ++ join " or " schemes)
    ∷ []
wanted h (cidrs_of k) = "expect a comma-separated list of CIDR prefixes, e.g. 10.0.0.0/8" ∷ []
wanted h (key_values_of k) = "expect a comma-separated key=value list" ∷ []
wanted h r = []

pub wanted_get :
    (h : Host) (get : String → Option String) (r : Read)
    → wanted (record h { get = get }) r ≡ wanted h r
wanted_get h get (marks k) = refl
wanted_get h get (string_of k d) = refl
wanted_get h get (required k) = refl
wanted_get h get (enum_of k d allowed) = refl
wanted_get h get (int_of k d low high) = refl
wanted_get h get (bytes_of k d) = refl
wanted_get h get (bool_of k d) = refl
wanted_get h get (duration_of k d low high) = refl
wanted_get h get (level_of k d) = refl
wanted_get h get (url_of k d schemes) = refl
wanted_get h get (secret_url_of k must schemes) = refl
wanted_get h get (cidrs_of k) = refl
wanted_get h get (csv_of k d) = refl
wanted_get h get (key_values_of k) = refl

abbrev pub key_of : Read → String
key_of (marks k) = k
key_of (string_of k d) = k
key_of (required k) = k
key_of (enum_of k d allowed) = k
key_of (int_of k d low high) = k
key_of (bytes_of k d) = k
key_of (bool_of k d) = k
key_of (duration_of k d low high) = k
key_of (level_of k d) = k
key_of (url_of k d schemes) = k
key_of (secret_url_of k must schemes) = k
key_of (cidrs_of k) = k
key_of (csv_of k d) = k
key_of (key_values_of k) = k

-- Whether the accessor marks its key as a secret.
abbrev pub hides : Read → Bool
hides (secret_url_of k must schemes) = true
hides (key_values_of k) = true
hides r = false

judge_int_wanted :
    (h : Host) (k : String) (d low high : ℤ) (s e : String)
    → judge_int h low high s ≡ fails e
    → In e (wanted h (int_of k d low high))
unfolding judge_int
judge_int_wanted h k d low high s e f = elim (Option-cases (atoi s)) [
  | inl absent ↦ inl (same_text e (rw (absent, judge_int) at f))
  | inr (n, found) ↦ elim (Bool-cases (is_within low high n)) [
    | inl within ↦ fits_fails n e (rw (found, judge_int, within) at f)
    | inr out ↦ inr (inl (same_text e (rw (found, judge_int, out) at f)))
  ]
]

judge_duration_wanted :
    (h : Host) (k : String) (d low high : ℤ) (s e : String)
    → judge_duration h low high s ≡ fails e
    → In e (wanted h (duration_of k d low high))
unfolding judge_duration
judge_duration_wanted h k d low high s e f = elim (Option-cases (h.parse_duration s)) [
  | inl absent ↦ inl (same_text e (rw (absent, judge_duration) at f))
  | inr (n, found) ↦ elim (Bool-cases (is_within low high n)) [
    | inl within ↦ fits_fails n e (rw (found, judge_duration, within) at f)
    | inr out ↦ inr (inl (same_text e (rw (found, judge_duration, out) at f)))
  ]
]

judge_bytes_wanted :
    (h : Host) (k : String) (d : ℤ) (s e : String)
    → judge_bytes s ≡ fails e
    → In e (wanted h (bytes_of k d))
judge_bytes_wanted h k d s e f = elim (Option-cases (parse_bytes s)) [
  | inl absent ↦ inl (same_text e (rw (absent, judge_bytes) at f))
  | inr (n, found) ↦ elim (Bool-cases (leb_int n (pos 0))) [
    | inl low ↦ inr (inl (same_text e (rw (found, judge_bytes, low) at f)))
    | inr ok ↦ fits_fails n e (rw (found, judge_bytes, ok) at f)
  ]
]

judge_bool_wanted :
    (h : Host) (k : String) (d : Bool) (s e : String)
    → judge_bool s ≡ fails e
    → In e (wanted h (bool_of k d))
judge_bool_wanted h k d s e f = elim (Option-cases (parse_bool s)) [
  | inl absent ↦ inl (same_text e (rw (absent, judge_bool) at f))
  | inr (b, found) ↦ fits_fails b e (rw (found, judge_bool) at f)
]

judge_level_wanted :
    (h : Host) (k : String) (d : ℤ) (s e : String)
    → judge_level h s ≡ fails e
    → In e (wanted h (level_of k d))
judge_level_wanted h k d s e f = elim (Option-cases (h.parse_level s)) [
  | inl absent ↦ inl (same_text e (rw (absent, judge_level) at f))
  | inr (n, found) ↦ fits_fails n e (rw (found, judge_level) at f)
]

judge_cidrs_wanted :
    (h : Host) (k s e : String) → judge_cidrs h s ≡ fails e → In e (wanted h (cidrs_of k))
unfolding judge_cidrs
judge_cidrs_wanted h k s e f = elim (Bool-cases (all_prefixes h (parts_of (split_comma s)))) [
  | inl ok ↦ fits_fails (parts_of (split_comma s)) e (rw (ok, judge_cidrs) at f)
  | inr bad ↦ inl (same_text e (rw (bad, judge_cidrs) at f))
]

pairs_wanted :
    (h : Host) (k : String) (ss : List String) (kvs : List (String × String)) (e : String)
    → pairs_of ss kvs ≡ fails e
    → In e (wanted h (key_values_of k))
unfolding pairs_of
pairs_wanted h k [] kvs e f = fits_fails kvs e f
pairs_wanted h k (s ∷ ss) kvs e f = elim (Option-cases (cut_equals s)) [
  | inl absent ↦ inl (same_text e (rw (absent, pairs_of) at f))
  | inr (kv, found) ↦ elim (Bool-cases (trim_space kv.0 =s "")) [
    | inl blank ↦ inl (same_text e (rw (found, pairs_of, blank) at f))
    | inr named ↦
        pairs_wanted h k ss (assign (trim_space kv.0) (trim_space kv.1) kvs) e
          (rw (found, pairs_of, named) at f)
  ]
]

unfoldable pub IsReader : Read → Type 0
IsReader (marks k) = ⊥
IsReader r = Unit

pub Read-cases : (r : Read) → ((k : String) × (r ≡ marks k)) ⊎ IsReader r
unfolding IsReader
Read-cases (marks k) = inl (k, refl)
Read-cases (string_of k d) = inr tt
Read-cases (required k) = inr tt
Read-cases (enum_of k d allowed) = inr tt
Read-cases (int_of k d low high) = inr tt
Read-cases (bytes_of k d) = inr tt
Read-cases (bool_of k d) = inr tt
Read-cases (duration_of k d low high) = inr tt
Read-cases (level_of k d) = inr tt
Read-cases (url_of k d schemes) = inr tt
Read-cases (secret_url_of k must schemes) = inr tt
Read-cases (cidrs_of k) = inr tt
Read-cases (csv_of k d) = inr tt
Read-cases (key_values_of k) = inr tt

-- Every accessor has the shape.
pub apply-Shaped :
    (h : Host) (r : Read) → IsReader r → Shaped h (key_of r) (hides r) (wanted h r) (apply h r)
unfolding apply read_int read_bytes read_bool read_duration read_level read_cidrs read_key_values
    mark_secret IsReader
apply-Shaped h (marks k) i = elim i [ ]
apply-Shaped h (string_of k d) i = read_string-Shaped h k d []
apply-Shaped h (required k) i = required_string-Shaped h k
apply-Shaped h (enum_of k d allowed) i = read_enum-Shaped h k d allowed
apply-Shaped h (int_of k d low high) i =
    read_as-Shaped h number (judge_int h low high) k d (wanted h (int_of k d low high))
      (judge_int_wanted h k d low high)
apply-Shaped h (bytes_of k d) i =
    read_as-Shaped h number judge_bytes k d (wanted h (bytes_of k d)) (judge_bytes_wanted h k d)
apply-Shaped h (bool_of k d) i =
    read_as-Shaped h flag judge_bool k d (wanted h (bool_of k d)) (judge_bool_wanted h k d)
apply-Shaped h (duration_of k d low high) i =
    read_as-Shaped h (λ n. text (h.show_duration n)) (judge_duration h low high) k d
      (wanted h (duration_of k d low high)) (judge_duration_wanted h k d low high)
apply-Shaped h (level_of k d) i =
    read_as-Shaped h (λ n. text (h.show_level n)) (judge_level h) k d (wanted h (level_of k d))
      (judge_level_wanted h k d)
apply-Shaped h (url_of k d schemes) i = read_url-Shaped h k d schemes
apply-Shaped h (secret_url_of k must schemes) i = secret_url-Shaped h k must schemes
apply-Shaped h (cidrs_of k) i =
    read_list-Shaped h (λ ps. number (pos (length ps))) (judge_cidrs h) k (wanted h (cidrs_of k))
      (judge_cidrs_wanted h k)
apply-Shaped h (csv_of k d) i = read_csv-Shaped h k d []
apply-Shaped h (key_values_of k) i =
    let (v, o, f, x) =
      read_list-Shaped h (λ kvs. number (pos (length kvs)))
        (λ s. pairs_of (parts_of (split_comma s)) []) k (wanted h (key_values_of k))
        (λ s. pairs_wanted h k (parts_of (split_comma s)) []) in
    (v, o, (λ l. f (record l { secrets = k ∷ l.secrets })), x)

-- ===== src/Config/Shape.antt =====
-- What every accessor does to the loader: it notes the variable, records one value, and adds at most
-- one problem, of a text that does not depend on the environment.
use Prim.Native.String.{◌++◌}
use cofound.Prelude.{
  ◌≡◌, ◌=s◌, ◌&&◌, not, ◌⊎◌, refl, inl, inr, String, Bool, true, false, Option, none, some, List,
  [], ◌∷◌, In, and_last, contains, is_none, Bool-cases, Option-cases, join, if◌then◌else◌,
}
use cofound.Config.Parse.{pos, parts_of, split_comma}
use cofound.Config.Loader.{
  Host, Value, text, number, texts, Problem, Loader, value_of, raw, record_value, problem,
  mark_secret, Judged, fits, fails, judged_as, settle_as, read_as, read_string, required_string,
  read_enum,
}
use cofound.Config.Reads.{
  record_judged, read_url, secret_url, settle_secret, settle_list, judge_url, no_schemes,
  settle_url, read_list, read_csv,
}

abbrev pub add_problem : Option Problem → List Problem → List Problem
add_problem none ps = ps
add_problem (some p) ps = and_last ps p

abbrev pub secrets_with : Bool → String → Loader → List String
secrets_with hide k l = if hide then k ∷ l.secrets else l.secrets

abbrev pub after_read : Host → String → Bool → Value → Option Problem → Loader → Loader
after_read h k hide v o l = record {
  problems = add_problem o l.problems;
  resolved =
      and_last l.resolved
        (record { key = k; value = v; secret = contains (secrets_with hide k l) k });
  secrets = secrets_with hide k l;
  provided = if is_none (value_of h k) then l.provided else k ∷ l.provided;
}

-- A problem of this key, with one of these texts.
abbrev pub IsExpected : String → List String → Option Problem → Type 0
IsExpected k w none = Unit
IsExpected k w (some p) = (p.key ≡ k) × In p.expect w

abbrev pub Shaped : Host → String → Bool → List String → (Loader → Loader) → Type 0
Shaped h k hide w f =
    (v : Value) × (o : Option Problem) × ((l : Loader) → f l ≡ after_read h k hide v o l)
    × IsExpected k w o

Judged-cases :
    {A : Type 0} (j : Judged A) → ((a : A) × (j ≡ fits a)) ⊎ ((e : String) × (j ≡ fails e))
Judged-cases (fits a) = inl (a, refl)
Judged-cases (fails e) = inr (e, refl)

pub read_as-Shaped :
    {A : Type 0} (h : Host) (show : A → Value) (judge : String → Judged A) (k : String) (d : A)
    (w : List String)
    → ((s e : String) → judge s ≡ fails e → In e w)
    → Shaped h k false w (λ l. (read_as h show judge k d l).0)
unfolding read_as settle_as judged_as raw record_value problem
read_as-Shaped h show judge k d w t = elim (Option-cases (value_of h k)) [
  | inl absent ↦ (show d, none, (λ l. rw (absent, raw) refl), tt)
  | inr (s, found) ↦ elim (Judged-cases (judge s)) [
    | inl (a, e) ↦ (show a, none, (λ l. rw (found, raw, e) refl), tt)
    | inr (x, e) ↦ (
      show d,
      some (record { key = k; expect = x }),
      (λ l. rw (found, raw, e) refl),
      (refl, t s x e),
    )
  ]
]

pub read_string-Shaped :
    (h : Host) (k d : String) (w : List String) → Shaped h k false w (λ l. (read_string h k d l).0)
unfolding read_string raw record_value
read_string-Shaped h k d w = elim (Option-cases (value_of h k)) [
  | inl absent ↦ (text d, none, (λ l. rw (absent, raw) refl), tt)
  | inr (s, found) ↦ (text s, none, (λ l. rw (found, raw) refl), tt)
]

pub required_string-Shaped :
    (h : Host) (k : String) → Shaped h k false ("is required" ∷ []) (λ l. (required_string h k l).0)
unfolding required_string raw record_value problem
required_string-Shaped h k = elim (Option-cases (value_of h k)) [
  | inl absent ↦ (
    text "",
    some (record { key = k; expect = "is required" }),
    (λ l. rw (absent, raw) refl),
    (refl, inl refl),
  )
  | inr (s, found) ↦ (text s, none, (λ l. rw (found, raw) refl), tt)
]

pub read_enum-Shaped :
    (h : Host) (k d : String) (allowed : List String)
    → Shaped h k false
        (("expect one of " ++ join ", " allowed) ∷ [])
        (λ l. (read_enum h k d allowed l).0)
unfolding read_enum raw record_value problem
read_enum-Shaped h k d allowed =
    let wrong : Problem = record { key = k; expect = "expect one of " ++ join ", " allowed } in
    elim (Option-cases (value_of h k)) [
      | inl absent ↦ elim (Bool-cases (contains allowed d)) [
        | inl ok ↦ (text d, none, (λ l. rw (absent, raw, ok) refl), tt)
        | inr bad ↦ (text d, some wrong, (λ l. rw (absent, raw, bad) refl), (refl, inl refl))
      ]
      | inr (s, found) ↦ elim (Bool-cases (contains allowed s)) [
        | inl ok ↦ (text s, none, (λ l. rw (found, raw, ok) refl), tt)
        | inr bad ↦ (text d, some wrong, (λ l. rw (found, raw, bad) refl), (refl, inl refl))
      ]
    ]

-- Recording what was judged, on any loader.
record_judged_cases :
    {A : Type 0} (show : A → Value) (j : Judged A) (k : String) (w : List String)
    → ((e : String) → j ≡ fails e → In e w)
    → (v : Value) × (o : Option Problem) × ((m : Loader)
        → (record_judged k show j m).0 ≡ record m {
          problems = add_problem o m.problems;
          resolved =
              and_last m.resolved (record { key = k; value = v; secret = contains m.secrets k });
        })
      × IsExpected k w o
unfolding record_judged record_value problem
record_judged_cases show (fits a) k w t = (show a, none, (λ m. refl), tt)
record_judged_cases show (fails e) k w t =
    (text "invalid", some (record { key = k; expect = e }), (λ m. refl), (refl, t e refl))

pub read_list-Shaped :
    {A : Type 0} (h : Host) (show : A → Value) (judge : String → Judged A) (k : String)
    (w : List String)
    → ((s e : String) → judge s ≡ fails e → In e w)
    → Shaped h k false w (λ l. (read_list h k show judge l).0)
unfolding read_list settle_list raw record_value
read_list-Shaped h show judge k w t = elim (Option-cases (value_of h k)) [
  | inl absent ↦ (number (pos 0), none, (λ l. rw (absent, raw) refl), tt)
  | inr (s, found) ↦
      let (v, o, f, x) = record_judged_cases show (judge s) k w (t s) in
      (v, o, (λ l. rw (found, raw) (f (record l { provided = k ∷ l.provided }))), x)
]

pub read_csv-Shaped :
    (h : Host) (k : String) (d w : List String) → Shaped h k false w (λ l. (read_csv h k d l).0)
unfolding read_csv raw record_value
read_csv-Shaped h k d w = elim (Option-cases (value_of h k)) [
  | inl absent ↦ (texts d, none, (λ l. rw (absent, raw) refl), tt)
  | inr (s, found) ↦ (texts (parts_of (split_comma s)), none, (λ l. rw (found, raw) refl), tt)
]

pub same_text :
    {A : Type 0} {a : String} (e : String) → ◌≡◌ {A = Judged A} (fails a) (fails e) → e ≡ a
same_text e f = cc

apart : {A : Type 0} (a : A) (e : String) → ◌≡◌ {A = Judged A} (fits a) (fails e) → ⊥
apart a e f = cc

pub fits_fails :
    {A : Type 0} {B : Type 0} (a : A) (e : String) → ◌≡◌ {A = Judged A} (fits a) (fails e) → B
fits_fails a e f = elim (apart a e f) [ ]

judge_url_wanted :
    (h : Host) (schemes : List String) (s e : String)
    → judge_url h schemes s ≡ fails e
    → In e ("expect an absolute URL" ∷ ("expect a URL with scheme " ++ join " or " schemes) ∷ [])
unfolding judge_url
judge_url_wanted h schemes s e f = elim (Option-cases (h.parse_url s)) [
  | inl absent ↦ inl (same_text e (rw (absent, judge_url) at f))
  | inr (u, found) ↦ elim (Bool-cases (u.host =s "")) [
    | inl blank ↦ inl (same_text e (rw (found, judge_url, blank) at f))
    | inr host ↦ elim (Bool-cases (not (no_schemes schemes) && not (contains schemes u.scheme))) [
      | inl other ↦ inr (inl (same_text e (rw (found, judge_url, host, other) at f)))
      | inr ok ↦ fits_fails u e (rw (found, judge_url, host, ok) at f)
    ]
  ]
]

url_from :
    (h : Host) (k s : String) (schemes : List String)
    → (v : Value) × (o : Option Problem) × ((m : Loader)
        → (settle_url h k schemes s m).0 ≡ record m {
          problems = add_problem o m.problems;
          resolved =
              and_last m.resolved (record { key = k; value = v; secret = contains m.secrets k });
        })
      × IsExpected k
          ("expect an absolute URL" ∷ ("expect a URL with scheme " ++ join " or " schemes) ∷ [])
          o
unfolding settle_url record_value
url_from h k s schemes = elim (Bool-cases (s =s "")) [
  | inl blank ↦ (text "", none, (λ m. rw blank refl), tt)
  | inr some_text ↦
      let (v, o, f, x) =
        record_judged_cases (λ u. text u.redacted) (judge_url h schemes s) k
          ("expect an absolute URL" ∷ ("expect a URL with scheme " ++ join " or " schemes) ∷ [])
          (judge_url_wanted h schemes s) in
      (v, o, (λ m. rw some_text (f m)), x)
]

pub read_url-Shaped :
    (h : Host) (k d : String) (schemes : List String)
    → Shaped h k false
        ("expect an absolute URL" ∷ ("expect a URL with scheme " ++ join " or " schemes) ∷ [])
        (λ l. (read_url h k d schemes l).0)
unfolding read_url raw
read_url-Shaped h k d schemes = elim (Option-cases (value_of h k)) [
  | inl absent ↦
      let (v, o, f, x) = url_from h k d schemes in (v, o, (λ l. rw (absent, raw) (f l)), x)
  | inr (s, found) ↦
      let (v, o, f, x) = url_from h k s schemes in
      (v, o, (λ l. rw (found, raw) (f (record l { provided = k ∷ l.provided }))), x)
]

pub secret_url-Shaped :
    (h : Host) (k : String) (must : Bool) (schemes : List String)
    → Shaped h k true
        ("is required"
          ∷ "expect an absolute URL"
          ∷ ("expect a URL with scheme " ++ join " or " schemes)
          ∷ [])
        (λ l. (secret_url h k must schemes l).0)
unfolding secret_url settle_secret raw record_value problem mark_secret
secret_url-Shaped h k must schemes = elim (Option-cases (value_of h k)) [
  | inl absent ↦ elim (Bool-cases must) [
    | inl needed ↦ (
      text "",
      some (record { key = k; expect = "is required" }),
      (λ l. rw (absent, raw, needed) refl),
      (refl, inl refl),
    )
    | inr optional ↦ (text "", none, (λ l. rw (absent, raw, optional) refl), tt)
  ]
  | inr (s, found) ↦
      let (v, o, f, x) =
        record_judged_cases (λ u. text s) (judge_url h schemes s) k
          ("is required"
            ∷ "expect an absolute URL"
            ∷ ("expect a URL with scheme " ++ join " or " schemes)
            ∷ [])
          (λ e q. inr (judge_url_wanted h schemes s e q)) in
      (
        v,
        o,
        (λ l.
            rw (found, raw) (f (record l { provided = k ∷ l.provided; secrets = k ∷ l.secrets }))),
        x,
      )
]

-- ===== src/Errs/Catalog/Lookup.antt =====
-- A catalogue that is built holds every entry that it was built from.
use cofound.Prelude.{
  String, ◌≡◌, refl, ◌≢◌, ◌≤◌, true, none, some, List, [], ◌∷◌, All, arith, eq_iff, eq_refl, lookup,
}
use cofound.Errs.Code.{is_valid}
use cofound.Errs.Catalog.{
  Entry, Catalog, built, refusal, build, new_catalog, chassis, chassis_entries,
}

build-refusal :
    (m : Catalog) (e : Entry) (es : List Entry) (c : Catalog)
    → build m (e ∷ es) ≡ built c
    → (refusal m e ≡ none) × (build ((e.code, e) ∷ m) es ≡ built c)
unfolding build
build-refusal m e es c h = ground arith

refusal-none :
    (m : Catalog) (e : Entry)
    → refusal m e ≡ none
    → (lookup e.code m ≡ none)
      × (is_valid e.code ≡ true)
      × (e.message ≢ "")
      × (400 ≤ e.status)
      × (e.status ≤ 599)
unfolding refusal
refusal-none m e h = ground (arith, eq_iff e.message "")

lookup-cons :
    (m : Catalog) (e : Entry) (k : String) (x : Entry)
    → lookup e.code m ≡ none
    → lookup k m ≡ some x
    → lookup k ((e.code, e) ∷ m) ≡ some x
unfolding lookup
lookup-cons m e k x fresh l = ground (arith, eq_iff e.code k)

-- A code that is in the map stays there with its entry.
build-keeps :
    (m : Catalog) (es : List Entry) (c : Catalog) (k : String) (x : Entry)
    → build m es ≡ built c
    → lookup k m ≡ some x
    → lookup k c ≡ some x
build-keeps m [] c k x h l = unfold build in ground arith
build-keeps m (e ∷ es) c k x h l =
    let (ok, rest) = build-refusal m e es c h in
    build-keeps ((e.code, e) ∷ m) es c k x rest (lookup-cons m e k x (refusal-none m e ok).0 l)

lookup_head : (m : Catalog) (e : Entry) → lookup e.code ((e.code, e) ∷ m) ≡ some e
unfolding lookup
lookup_head m e = rw (eq_refl e.code)

-- What a catalogue promises of an entry.
abbrev pub Serves : Catalog → Entry → Type 0
Serves c e =
    (lookup e.code c ≡ some e)
    × (is_valid e.code ≡ true)
    × (e.message ≢ "")
    × (400 ≤ e.status)
    × (e.status ≤ 599)

build-Serves :
    (m : Catalog) (es : List Entry) (c : Catalog) → build m es ≡ built c → All (Serves c) es
build-Serves m [] c h = tt
build-Serves m (e ∷ es) c h =
    let (ok, rest) = build-refusal m e es c h in
    let (_, v, n, lo, hi) = refusal-none m e ok in
    (
      (build-keeps ((e.code, e) ∷ m) es c e.code e rest (lookup_head m e), v, n, lo, hi),
      build-Serves ((e.code, e) ∷ m) es c rest,
    )

-- When NewCatalog accepts its entries, the catalogue finds each of them under its code, so the
-- codes are distinct, and each has a valid code, a message, and a status from 400 to 599.
pub new_catalog-Serves :
    (es : List Entry) (c : Catalog) → new_catalog es ≡ built c → All (Serves c) es
unfolding new_catalog
new_catalog-Serves es c h = build-Serves [] es c h

-- The transport vocabulary is accepted.
pub chassis-built : new_catalog chassis_entries ≡ built chassis
unfolding new_catalog chassis_entries chassis is_valid lookup
chassis-built = refl

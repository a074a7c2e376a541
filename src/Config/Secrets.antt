-- ===== src/Config/Secrets.antt =====
-- What the boot line shows of a secret.
use Prim.Native.String.{◌++◌}
use cofound.Prelude.{
  ◌≡◌, ◌⊎◌, refl, ap, sym, ◌∙◌, inl, inr, String, Bool, true, false, Option, List, [], ◌∷◌, In,
  In-append, and_last, contains, ◌=s◌, eq_iff, arith, Bool-cases,
}
use cofound.Config.Loader.{Host, Value, text, Problem, ResolvedKey, Loader, new_loader, mark_secret}
use cofound.Config.Reads.{
  Read, marks, apply, load, fingerprint, value_text, render_all, resolved_attrs,
}
use cofound.Config.Shape.{after_read, secrets_with}
use cofound.Config.Wanted.{key_of, hides, Read-cases, apply-Shaped}

-- The key is marked, and what was recorded for it is secret.
abbrev Sealed : String → Loader → Type 0
Sealed k l =
    (contains l.secrets k ≡ true)
    × ((e : ResolvedKey) → In e l.resolved → e.key ≡ k → e.secret ≡ true)

still_marked :
    (hide : Bool) (j k : String) (l : Loader)
    → contains l.secrets k ≡ true
    → contains (secrets_with hide j l) k ≡ true
unfolding contains
still_marked true j k l h = ground arith
still_marked false j k l h = h

marked_self :
    (hide : Bool) (j k : String) (l : Loader)
    → contains l.secrets k ≡ true
    → j ≡ k
    → contains (secrets_with hide j l) j ≡ true
marked_self hide j k l m e = rw e (still_marked hide k k l m)

recorded-Sealed :
    (h : Host) (j k : String) (hide : Bool) (v : Value) (l : Loader)
    → contains l.secrets k ≡ true
    → ((e : ResolvedKey) → In e l.resolved → e.key ≡ k → e.secret ≡ true)
    → (e : ResolvedKey)
    → In e (
        and_last l.resolved
          (record { key = j; value = v; secret = contains (secrets_with hide j l) j }))
    → e.key ≡ k
    → e.secret ≡ true
recorded-Sealed h j k hide v l m f e i q =
    let new : ResolvedKey = record {
      key = j;
      value = v;
      secret = contains (secrets_with hide j l) j;
    } in
    elim (In-append e l.resolved (new ∷ []) i) [
      | inl old ↦ f e old q
      | inr (inl s) ↦ ap (λ d. d.secret) s ∙ marked_self hide j k l m (sym (ap (λ d. d.key) s) ∙ q)
      | inr (inr none_left) ↦ elim none_left [ ]
    ]

after_read-Sealed :
    (h : Host) (j k : String) (hide : Bool) (v : Value) (o : Option Problem) (l : Loader)
    → Sealed k l
    → Sealed k (after_read h j hide v o l)
after_read-Sealed h j k hide v o l (m, f) =
    (still_marked hide j k l m, λ e i q. recorded-Sealed h j k hide v l m f e i q)

mark_secret-Sealed : (j k : String) (l : Loader) → Sealed k l → Sealed k (mark_secret j l)
unfolding mark_secret
mark_secret-Sealed j k l (m, f) = (still_marked true j k l m, f)

apply-Sealed : (h : Host) (r : Read) (k : String) (l : Loader) → Sealed k l → Sealed k (apply h r l)
apply-Sealed h r k l s = elim (Read-cases r) [
  | inl (j, e) ↦ rw e (unfold apply in mark_secret-Sealed j k l s)
  | inr i ↦
      let (v, o, f, x) = apply-Shaped h r i in
      rw (f l) (after_read-Sealed h (key_of r) k (hides r) v o l s)
]

load-Sealed :
    (h : Host) (rs : List Read) (k : String) (l : Loader) → Sealed k l → Sealed k (load h rs l)
unfolding load
load-Sealed h [] k l s = s
load-Sealed h (r ∷ rs) k l s = load-Sealed h rs k (apply h r l) (apply-Sealed h r k l s)

new-Sealed : (k : String) → Sealed k (mark_secret k new_loader)
unfolding mark_secret new_loader contains
new-Sealed k = (ground (arith, eq_iff k k), λ e i q. elim i [ ])

marked-Sealed :
    (h : Host) (k : String) (rs : List Read) → Sealed k (load h (marks k ∷ rs) new_loader)
unfolding load apply
marked-Sealed h k rs = load-Sealed h rs k (mark_secret k new_loader) (new-Sealed k)

abbrev pub IsHidden : Host → Value → Type 0
IsHidden h v =
    (v ≡ text "unset") ⊎ ((s : String) × (v ≡ text ("set (sha256:" ++ (h.digest s ++ ")"))))

fingerprint-IsHidden : (h : Host) (v : Value) → IsHidden h (text (fingerprint h v))
unfolding fingerprint
fingerprint-IsHidden h v = elim (Bool-cases (value_text h v =s "")) [
  | inl blank ↦ inl (rw blank refl)
  | inr some_text ↦ elim (Bool-cases (value_text h v =s "0")) [
    | inl nought ↦ inl (rw (some_text, nought) refl)
    | inr known ↦ inr (value_text h v, rw (some_text, known) refl)
  ]
]

render-IsHidden :
    (h : Host) (k : String) (v : Value) (es : List ResolvedKey)
    → ((e : ResolvedKey) → In e es → e.key ≡ k → e.secret ≡ true)
    → In (k, v) (render_all h es)
    → IsHidden h v
unfolding render_all
render-IsHidden h k v [] f i = elim i [ ]
render-IsHidden h k v (e ∷ es) f (inl q) =
    let secret = f e (inl refl) (sym (ap (λ a. a.0) q)) in
    let shown : v ≡ text (fingerprint h e.value) = ap (λ a. a.1) q ∙ rw secret refl in
    rw shown (fingerprint-IsHidden h e.value)
render-IsHidden h k v (e ∷ es) f (inr i) = render-IsHidden h k v es (λ d j. f d (inr j)) i

-- A key that is marked before the variables are read shows on the boot line only as unset, or as the
-- first bytes of a hash, whatever is read and marked after it.
pub marked-IsHidden :
    (h : Host) (k : String) (rs : List Read) (v : Value)
    → In (k, v) (resolved_attrs h (load h (marks k ∷ rs) new_loader))
    → IsHidden h v
unfolding resolved_attrs
marked-IsHidden h k rs v i =
    render-IsHidden h k v (load h (marks k ∷ rs) new_loader).resolved (marked-Sealed h k rs).1 i

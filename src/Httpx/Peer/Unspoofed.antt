-- ===== src/Httpx/Peer/Unspoofed.antt =====
-- packages/chassis/httpx: which address and which request id a client can choose.
use Prim.Native.Char.{Char, code}
use Prim.Native.String.append as Append
use Prim.Native.String.compare as Compare
use Prim.Native.String as Text
use cofound.Prelude.{
  ℕ, String, ◌≡◌, refl, false, Option, some, List, [], ◌∷◌, ◌++◌, arith, inl, inr, Bool-cases, ◌==◌,
  ap, sym, ◌∙◌, ◌=s◌,
}
use cofound.Config.Parse.{split_comma, on_first}
use cofound.Httpx.Peer.{
  Network, Sender, header_get, peer_addr, walk, forwarded_for, client_ip, judge_peer, host_of,
}

split_comma-nonempty : (s : String) → (p : String) × (ps : List String) × (split_comma s ≡ p ∷ ps)
unfolding split_comma
split_comma-nonempty String.[] = ("", [], refl)
split_comma-nonempty (String.◌∷◌ c s) = elim (Bool-cases (code c == 44)) [
  | inl b ↦ rw b ("", split_comma s, refl)
  | inr b ↦ let (p, ps, e) = split_comma-nonempty s in rw (b, e) (String.◌∷◌ c p, ps, refl)
]

-- What a client's text is in front of a header's, as a proxy joins them.
abbrev pub prepended : String → String → String
prepended s t = Text.◌++◌ s (Text.◌++◌ "," t)

comma_lem : (t : String) → Text.◌++◌ "," t ≡ String.◌∷◌ "," t
comma_lem t = Append.cons "," "" t ∙ ap (λ u. String.◌∷◌ "," u) (Append.nil t)

on_first-append :
    (c : Char) (xs ys : List String) (p : String) (ps : List String)
    → xs ≡ p ∷ ps
    → on_first c (xs ++ ys) ≡ on_first c xs ++ ys
on_first-append c xs ys p ps e = rw e refl

split_comma-prepended :
    (s t : String) → split_comma (prepended s t) ≡ split_comma s ++ split_comma t
unfolding split_comma
split_comma-prepended String.[] t = ap split_comma (Append.nil (Text.◌++◌ "," t) ∙ comma_lem t)
split_comma-prepended (String.◌∷◌ c s) t =
    ap split_comma (Append.cons c s (Text.◌++◌ "," t)) ∙ elim (Bool-cases (code c == 44)) [
      | inl b ↦ rw (b, split_comma-prepended s t) refl
      | inr b ↦
          let (p, ps, e) = split_comma-nonempty s in
          rw (b, split_comma-prepended s t)
            (on_first-append c (split_comma s) (split_comma t) p ps e)
    ]

cons_lem : (c : Char) (s : String) → (String.◌∷◌ c s =s "") ≡ false
cons_lem c s = rw (Compare.cons-nil c s) refl

prepended-nonempty : (s t : String) → (prepended s t =s "") ≡ false
prepended-nonempty String.[] t =
    ap (λ u. u =s "") (Append.nil (Text.◌++◌ "," t) ∙ comma_lem t) ∙ cons_lem "," t
prepended-nonempty (String.◌∷◌ c s) t =
    ap (λ u. u =s "") (Append.cons c s (Text.◌++◌ "," t))
    ∙ cons_lem c (Text.◌++◌ s (Text.◌++◌ "," t))

module _ {P : Type 0} (n : Network P) where
  walk-append : (ps qs : List String) (ip : ℕ) → walk n qs ≡ some ip → walk n (ps ++ qs) ≡ some ip
  unfolding walk
  walk-append [] qs ip e = e
  walk-append (p ∷ ps) qs ip e = rw (walk-append ps qs ip e) refl

  forwarded_for-prepended :
      (s t : String) (ip : ℕ)
      → forwarded_for n t ≡ some ip
      → forwarded_for n (prepended s t) ≡ some ip
  unfolding forwarded_for
  forwarded_for-prepended s t ip e = elim (Bool-cases (t =s "")) [
    | inl b ↦ absurd (ground arith)
    | inr b ↦
        rw (prepended-nonempty s t, split_comma-prepended s t)
          (walk-append (split_comma s) (split_comma t) ip (ground (arith)))
  ]

  -- If the header that the proxies wrote has an untrusted address, then whatever text a client sent
  -- as the start of that header, ClientIP gives the handler the same address as without it.
  pub client_ip-prepended :
      (r : Sender) (text raw : String) (more : List String) (before : Option ℕ) (ip : ℕ)
      → forwarded_for n raw ≡ some ip
      → client_ip n (record r { forwarded = prepended text raw ∷ more }) before
        ≡ client_ip n (record r { forwarded = raw ∷ more }) before
  unfolding client_ip header_get peer_addr host_of
  client_ip-prepended r text raw more before ip e =
      ap (λ f. judge_peer n (peer_addr n r) f before)
        (forwarded_for-prepended text raw ip e ∙ sym e)

-- ===== src/Auth/Links/Single.antt =====
-- A link signs in once, and whom it was sent to.
use cofound.Prelude.{
  ℕ, ◌≤◌, ◌<◌, ◌≡◌, ◌≢◌, refl, ◌∙◌, sym, subst, inl, inr, String, true, false, Option, none, some,
  List, [], ◌∷◌, ◌++◌, arith, eq_iff, ◌=s◌, count, count-none, count-some, find-count, count_le,
  count-update_le, count-append, count-update, find, In, In-find, update, Option-cases,
}
use cofound.Auth.Token.{Token, Hash}
use cofound.Auth.Session.Store.{ok, err, no_session}
use cofound.Auth.Links.{
  MagicLinks, LinkRow, User, Links, Refuses, has_hash, link_row, request_link, request, is_live,
  spend, upsert_by_email, sign_in, consume_link, begin_tx, consume_token,
}
use cofound.Auth.Links.Throttle.{
  Reach, here, requests, consumes, request_link-tokens, consume_link-tokens,
}

module _ (m : MagicLinks) (h : Hash) where
  -- A row has the hash, so that no other will, and no row of it can be redeemed from `u` on.
  pub record IsSpent (u : ℕ) (rs : List LinkRow) : Type 0 where
    pub known : 0 < count (has_hash h) rs
    pub dead : count (is_live h u) rs ≡ 0

  live-later :
      (u later : ℕ) (rs : List LinkRow)
      → u ≤ later
      → count (is_live h later) rs ≤ count (is_live h u) rs
  unfolding is_live
  live-later u later rs l = count_le (is_live h later) (is_live h u) rs (λ r e. ground arith)

  spend-dead : (now : ℕ) (rs : List LinkRow) → count (is_live h now) (spend h now rs) ≡ 0
  unfolding count spend update is_live
  spend-dead now [] = refl
  spend-dead now (r ∷ rs) = ground (arith, spend-dead now rs)

  spend-known :
      (k : Hash) (now : ℕ) (rs : List LinkRow)
      → count (has_hash h) (spend k now rs) ≡ count (has_hash h) rs
  unfolding spend has_hash
  spend-known k now rs =
      count-update (has_hash h) (is_live k now) (λ r. record r { consumed_at = some now }) rs
        (λ r. refl)

  spend-live :
      (k : Hash) (now u : ℕ) (rs : List LinkRow)
      → count (is_live h u) (spend k now rs) ≤ count (is_live h u) rs
  unfolding spend is_live
  spend-live k now u rs =
      count-update_le (is_live h u) (is_live k now) (λ r. record r { consumed_at = some now }) rs
        (λ r e. ground arith)

  live_known : (now : ℕ) (rs : List LinkRow) → count (is_live h now) rs ≤ count (has_hash h) rs
  unfolding is_live has_hash
  live_known now rs = count_le (is_live h now) (has_hash h) rs (λ r e. ground arith)

  later-IsSpent : (u now : ℕ) (rs : List LinkRow) → u ≤ now → IsSpent u rs → IsSpent now rs
  later-IsSpent u now rs l s = record {
    known = s.known;
    dead = omega (arith, s.dead, live-later u now rs l);
  }

  consume_link-IsSpent :
      (bad : Refuses) (token : Token) (u now : ℕ) (w : Links)
      → u ≤ now
      → IsSpent u w.tokens
      → IsSpent now (consume_link m bad token now w).0.tokens
  consume_link-IsSpent bad token u now w l s = elim (consume_link-tokens m bad token now w) [
    | inl e ↦ subst (IsSpent now) (sym e) (later-IsSpent u now w.tokens l s)
    | inr e ↦ subst (IsSpent now) (sym e) (record {
      known = omega (arith, s.known, spend-known (m.hash token) now w.tokens);
      dead =
          omega (
            arith,
            s.dead,
            live-later u now w.tokens l,
            spend-live (m.hash token) now now w.tokens,
          );
    })
  ]

  other_hash :
      (k : Hash) (rs : List LinkRow)
      → find (has_hash k) rs ≡ none
      → 0 < count (has_hash h) rs
      → k ≢ h
  other_hash k rs new known e =
      omega
        (arith, known, subst (λ j. count (has_hash j) rs ≡ 0) e (count-none (has_hash k) rs new))

  link_row-dead :
      (email : String) (token : Token) (now : ℕ)
      → m.hash token ≢ h
      → count (is_live h now) (link_row m email token now ∷ []) ≡ 0
  unfolding count is_live link_row
  link_row-dead email token now d = ground arith

  added-IsSpent :
      (email : String) (token : Token) (now : ℕ) (rs : List LinkRow)
      → find (has_hash (m.hash token)) rs ≡ none
      → IsSpent now rs
      → IsSpent now (rs ++ link_row m email token now ∷ [])
  added-IsSpent email token now rs new s = record {
    known = omega (arith, s.known, count-append (has_hash h) rs (link_row m email token now ∷ []));
    dead = omega (
      arith,
      s.dead,
      count-append (is_live h now) rs (link_row m email token now ∷ []),
      link_row-dead email token now (other_hash (m.hash token) rs new s.known),
    );
  }

  request_link-IsSpent :
      (bad : Refuses) (fresh : Option Token) (email : String) (u now : ℕ) (w : Links)
      → u ≤ now
      → IsSpent u w.tokens
      → IsSpent now (request_link m bad fresh email now w).0.tokens
  request_link-IsSpent bad fresh email u now w l s =
      elim (request_link-tokens m bad fresh email now w) [
        | inl e ↦ subst (IsSpent now) (sym e) (later-IsSpent u now w.tokens l s)
        | inr (token, e, _, new) ↦
            subst (IsSpent now) (sym e)
              (added-IsSpent email token now w.tokens new (later-IsSpent u now w.tokens l s))
      ]

  Reach-IsSpent :
      (t : ℕ) (w : Links) (u : ℕ) (x : Links)
      → Reach m t w u x
      → IsSpent t w.tokens
      → IsSpent u x.tokens
  unfolding request
  Reach-IsSpent t w u x here s = s
  Reach-IsSpent t w u x (requests r bad fresh (err e) now l) s =
      later-IsSpent _ now _ l (Reach-IsSpent t w _ _ r s)
  Reach-IsSpent t w u x (requests r bad fresh (ok email) now l) s =
      request_link-IsSpent bad fresh email _ now _ l (Reach-IsSpent t w _ _ r s)
  Reach-IsSpent t w u x (consumes r bad token now l) s =
      consume_link-IsSpent bad token _ now _ l (Reach-IsSpent t w _ _ r s)

module _ (m : MagicLinks) (bad : Refuses) (token : Token) (now : ℕ) (w t : Links) (v : ℕ × String)
    (signed_in : consume_link m bad token now w ≡ (t, ok v)) where
  -- What a Consume that succeeds found and did.
  consume_link-ok :
      (r : LinkRow) × (find (is_live (m.hash token) now) w.tokens ≡ some r)
      × (sign_in bad r.email w (record w { tokens = spend (m.hash token) now w.tokens })
          ≡ (t, ok v))
  unfolding consume_link
  consume_link-ok = elim (Option-cases (find (is_live (m.hash token) now) w.tokens)) [
    | inl n ↦ absurd (ground (arith, signed_in))
    | inr (r, f) ↦ (r, f, ground (arith, signed_in))
  ]

  sign_in-ok :
      (email : String) (x : Links)
      → sign_in bad email w x ≡ (t, ok v)
      → (t.tokens ≡ x.tokens)
        × (v.1 ≡ email)
        × (v.0 ≡ (upsert_by_email email x).1)
        × (t ≡ (upsert_by_email email x).0)
  unfolding sign_in upsert_by_email
  sign_in-ok email x e = elim (Option-cases (find (λ (u : User). u.email =s email) x.users)) [
    | inl n ↦ ground arith
    | inr (u, f) ↦ ground arith
  ]

  now-IsSpent : IsSpent m (m.hash token) now t.tokens
  now-IsSpent =
      let (r, f, e) = consume_link-ok in
      let kept =
        (sign_in-ok r.email (record w { tokens = spend (m.hash token) now w.tokens }) e).0 in
      subst (IsSpent m (m.hash token) now) (sym kept) (record {
        known = omega (
          arith,
          count-some (is_live (m.hash token) now) w.tokens r f,
          live_known m (m.hash token) now w.tokens,
          spend-known m (m.hash token) (m.hash token) now w.tokens,
        );
        dead = spend-dead m (m.hash token) now w.tokens;
      })

  -- A link that has signed someone in never does so again: whatever is requested and consumed after
  -- it, by whomever, Consume answers that there is no session, and changes nothing.
  pub consume_link-once :
      (again : Refuses) (later : ℕ) (x : Links)
      → Reach m now t later x
      → again begin_tx ≡ false
      → again consume_token ≡ false
      → consume_link m again token later x ≡ (x, err no_session)
  unfolding consume_link
  consume_link-once again later x r b k =
      let spent = Reach-IsSpent m (m.hash token) now t later x r now-IsSpent in
      ground (arith, find-count (is_live (m.hash token) later) x.tokens spent.dead)

  In_last : (u : User) (us : List User) → In u (us ++ u ∷ [])
  In_last u [] = inl refl
  In_last u (x ∷ us) = inr (In_last u us)

  find-user :
      (email : String) (x : Links)
      → (u : User) × In u (upsert_by_email email x).0.users
        × (u.id ≡ (upsert_by_email email x).1)
        × (u.email ≡ email)
  unfolding upsert_by_email
  find-user email x = elim (Option-cases (find (λ (u : User). u.email =s email) x.users)) [
    | inl n ↦ (
      record { id = x.next_user; email = email },
      ground (arith, In_last (record { id = x.next_user; email = email }) x.users),
      ground arith,
      refl,
    )
    | inr (u, f) ↦
        let (i, e) = In-find (λ (u : User). u.email =s email) u x.users f in
        (u, ground (arith, i), ground arith, (eq_iff u.email email).0 e)
  ]

  -- When Consume succeeds, the token is that of a link that was not used and had not expired, and it
  -- signs in the user of the address that the link was stored for, who exists afterwards.
  pub consume_link-user :
      (r : LinkRow) × In r w.tokens
      × (is_live (m.hash token) now r ≡ true)
      × (v.1 ≡ r.email)
      × ((u : User) × In u t.users × (u.id ≡ v.0) × (u.email ≡ r.email))
  consume_link-user =
      let (r, f, e) = consume_link-ok in
      let x : Links = record w { tokens = spend (m.hash token) now w.tokens } in
      let (_, named, id, is) = sign_in-ok r.email x e in
      let (ir, live) = In-find (is_live (m.hash token) now) r w.tokens f in
      let (u, iu, eu, mail) = find-user r.email x in
      (r, ir, live, named, (u, subst (λ (y : Links). In u y.users) (sym is) iu, eu ∙ sym id, mail))

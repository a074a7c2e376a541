-- ===== src/Auth/Links/Throttle.antt =====
-- However links are requested, no address gets more of them than the policy allows.
use cofound.Prelude.{
  ℕ, ◌≤◌, ◌<◌, ◌≡◌, inl, inr, ◌⊎◌, String, Option, none, some, List, [], ◌∷◌, ◌++◌, arith, leb,
  Bool, find, Option-cases, Bool-cases,
}
use cofound.Auth.Token.{Token}
use cofound.Auth.Session.Store.{Outcome}
use cofound.Auth.Links.{
  MagicLinks, LinkRow, Links, Refuses, recent, link_row, store_link, send_link, request_link,
  request, sweep_links, is_live, spend, upsert_by_email, sign_in, consume_link, has_hash,
  throttle_check,
}

-- Calls of Request and Consume, each no earlier than the one before: the clock and the tables at
-- the start and at the end.
pub data Reach (m : MagicLinks) (t : ℕ) (w : Links) : ℕ → Links → Type 0 where
  here : Reach m t w t w
  requests :
      {u : ℕ} {x : Links}
      → Reach m t w u x
      → (bad : Refuses) (fresh : Option Token) (email : Outcome String) (now : ℕ) → u ≤ now
      → Reach m t w now (request m bad fresh email now x).0
  consumes :
      {u : ℕ} {x : Links}
      → Reach m t w u x
      → (bad : Refuses) (token : Token) (now : ℕ) → u ≤ now
      → Reach m t w now (consume_link m bad token now x).0

module _ (m : MagicLinks) where
  send_link-tokens :
      (bad : Refuses) (email : String) (token : Token) (w : Links)
      → (send_link m bad email token w).0.tokens ≡ w.tokens
  unfolding send_link
  send_link-tokens bad email token w = ground arith

  store_link-tokens :
      (bad : Refuses) (email : String) (token : Token) (now : ℕ) (w t : Links)
      → store_link m bad email token now w ≡ some t
      → (t.tokens ≡ w.tokens ++ link_row m email token now ∷ [])
        × (find (has_hash (m.hash token)) w.tokens ≡ none)
  unfolding store_link
  store_link-tokens bad email token now w t e =
      elim (Option-cases (find (has_hash (m.hash token)) w.tokens)) [
        | inl n ↦ ground arith
        | inr (r, f) ↦ absurd (ground arith)
      ]

  -- What Request does to login_tokens.
  pub request_link-tokens :
      (bad : Refuses) (fresh : Option Token) (email : String) (now : ℕ) (w : Links)
      → ((request_link m bad fresh email now w).0.tokens ≡ w.tokens)
        ⊎ ((token : Token) × ((request_link m bad fresh email now w).0.tokens
              ≡ w.tokens ++ link_row m email token now ∷ [])
            × (recent m.window email now w.tokens < m.max_per_email)
            × (find (has_hash (m.hash token)) w.tokens ≡ none))
  unfolding request_link
  request_link-tokens bad none email now w = inl (ground arith)
  request_link-tokens bad (some token) email now w =
      elim (Option-cases (store_link m bad email token now w)) [
        | inl n ↦ inl (ground arith)
        | inr (t, f) ↦ elim (Bool-cases (bad throttle_check)) [
          | inl b ↦ inl (ground arith)
          | inr b ↦ elim (Bool-cases (leb m.max_per_email (recent m.window email now w.tokens))) [
            | inl l ↦ inl (ground arith)
            | inr l ↦
                let (added, new) = store_link-tokens bad email token now w t f in
                inr (token, ground (arith, send_link-tokens bad email token t), ground arith, new)
          ]
        ]
      ]

  -- What Consume does to them.
  pub consume_link-tokens :
      (bad : Refuses) (token : Token) (now : ℕ) (w : Links)
      → ((consume_link m bad token now w).0.tokens ≡ w.tokens)
        ⊎ ((consume_link m bad token now w).0.tokens ≡ spend (m.hash token) now w.tokens)
  unfolding consume_link sign_in upsert_by_email
  consume_link-tokens bad token now w =
      elim (Option-cases (find (is_live (m.hash token) now) w.tokens)) [
        | inl n ↦ inl (ground arith)
        | inr (r, f) ↦ ground arith
      ]

  -- No address has more than the policy's number of links that were created in one window before
  -- a time not earlier than the clock.
  abbrev pub IsThrottled : ℕ → List LinkRow → Type 0
  IsThrottled u rs =
      (email : String) (later : ℕ) → u ≤ later → recent m.window email later rs ≤ m.max_per_email

-- Whole calls of Request, Consume and Sweep, each no earlier than the one before.
pub data Life (m : MagicLinks) (t : ℕ) (w : Links) : ℕ → Links → Type 0 where
  opens : Life m t w t w
  asks :
      {u : ℕ} {x : Links}
      → Life m t w u x
      → (bad : Refuses) (fresh : Option Token) (email : Outcome String) (now : ℕ) → u ≤ now
      → Life m t w now (request m bad fresh email now x).0
  follows :
      {u : ℕ} {x : Links}
      → Life m t w u x
      → (bad : Refuses) (token : Token) (now : ℕ) → u ≤ now
      → Life m t w now (consume_link m bad token now x).0
  sweeps :
      {u : ℕ} {x : Links}
      → Life m t w u x
      → (refused : Bool) (now : ℕ) → u ≤ now
      → Life m t w now (sweep_links refused now x)

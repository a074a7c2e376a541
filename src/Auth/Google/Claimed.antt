-- ===== src/Auth/Google/Claimed.antt =====
-- services/api/internal/auth/google.go: what the id_token of an identity claimed.
use cofound.Prelude.{
  ℕ, ◌*◌, ◌≤◌, String, ◌≡◌, ◌≢◌, ◌⊎◌, none, some, arith, inl, inr, Option-cases, eq_iff,
}
use cofound.Errs.Outcome.{ok, Outcome-cases}
use cofound.Auth.Session.Store.{second}
use cofound.Auth.Google.{
  Google, GoogleConfig, GoogleIdentity, Claims, Challenge, Answer, google_issuer, is_verified,
  judge_claims, identity_of, payload_of, split_dot, parse_id_token, read_answer, exchange,
}

-- The claims that an identity may rest on.
pub record IsTrusted (g : Google) (now : ℕ) (k : Claims) (id : GoogleIdentity) : Type 0 where
  pub issuer : (k.issuer ≡ google_issuer) ⊎ (k.issuer ≡ "accounts.google.com")
  pub audience : k.audience ≡ g.client_id
  pub current : now ≤ k.expiry * second
  pub subject : (id.subject ≡ k.subject) × (id.subject ≢ "")
  pub email : g.normalise k.email ≡ ok id.email
  pub verified : id.verified ≡ is_verified k.verified

judge_claims-none :
    (c : GoogleConfig) (now : ℕ) (k : Claims)
    → judge_claims c now k ≡ none
    → ((k.issuer ≡ google_issuer) ⊎ (k.issuer ≡ "accounts.google.com"))
      × (k.audience ≡ c.client_id)
      × (now ≤ k.expiry * second)
      × (k.subject ≢ "")
unfolding judge_claims
judge_claims-none c now k e = (
  ground (arith, eq_iff k.issuer google_issuer, eq_iff k.issuer "accounts.google.com"),
  ground (arith, eq_iff k.audience c.client_id),
  ground (arith),
  λ b. ground (arith, eq_iff k.subject ""),
)

identity_of-IsTrusted :
    (g : Google) (now : ℕ) (k : Claims) (id : GoogleIdentity)
    → identity_of g now k ≡ ok id
    → IsTrusted g now k id
unfolding identity_of
identity_of-IsTrusted g now k id e = elim (Option-cases (judge_claims g.cfg now k)) [
  | inr (x, f) ↦ absurd (ground arith)
  | inl n ↦ elim (Outcome-cases (g.normalise k.email)) [
    | inr (x, f) ↦ absurd (ground arith)
    | inl (email, f) ↦
        let (iss, aud, exp, sub) = judge_claims-none g.cfg now k n in
        record {
          issuer = iss;
          audience = aud;
          current = exp;
          subject = (ground arith, λ b. sub (ground arith));
          email = ground arith;
          verified = ground arith;
        }
  ]
]

-- The claims come from the token endpoint's answer with status 200, for the code and the verifier.
abbrev pub Proves : Google → String → Challenge → Claims → Type 0
Proves g code c k =
    (a : Answer) × (t : String) × (p : String) × (g.endpoint code c.verifier ≡ ok a)
    × (a.status ≡ 200)
    × (a.id_token ≡ ok t)
    × (payload_of (split_dot t) ≡ some p)
    × (g.decode p ≡ ok k)

parse_id_token-ok :
    (g : Google) (now : ℕ) (t : String) (id : GoogleIdentity)
    → parse_id_token g now t ≡ ok id
    → (p : String) × (k : Claims) × (payload_of (split_dot t) ≡ some p)
      × (g.decode p ≡ ok k)
      × IsTrusted g now k id
unfolding parse_id_token
parse_id_token-ok g now t id e = elim (Option-cases (payload_of (split_dot t))) [
  | inl n ↦ absurd (ground arith)
  | inr (p, f) ↦ elim (Outcome-cases (g.decode p)) [
    | inr (x, d) ↦ absurd (ground arith)
    | inl (k, d) ↦ (p, k, f, d, identity_of-IsTrusted g now k id (ground arith))
  ]
]

read_answer-ok :
    (g : Google) (now : ℕ) (a : Answer) (id : GoogleIdentity)
    → read_answer g now a ≡ ok id
    → (a.status ≡ 200) × ((t : String) × (a.id_token ≡ ok t) × (parse_id_token g now t ≡ ok id))
unfolding read_answer
read_answer-ok g now a id e = elim (Outcome-cases a.id_token) [
  | inr (x, f) ↦ absurd (ground arith)
  | inl (t, f) ↦ (ground arith, (t, f, ground arith))
]

-- An identity that Exchange gives rests on the claims of an id_token that the token endpoint
-- answered with for this code and verifier: issued by Google, for this client, not expired, with a
-- subject, the identity's, that is not empty, an address that normalises to the identity's, and the
-- word of email_verified.
pub exchange-IsTrusted :
    (g : Google) (now : ℕ) (code : String) (c : Challenge) (id : GoogleIdentity)
    → exchange g now code c ≡ ok id
    → (k : Claims) × Proves g code c k × IsTrusted g now k id
unfolding exchange
exchange-IsTrusted g now code c id e = elim (Outcome-cases (g.endpoint code c.verifier)) [
  | inr (x, f) ↦ absurd (ground arith)
  | inl (a, f) ↦
      let (s, (t, is, parsed)) = read_answer-ok g now a id (ground arith) in
      let (p, k, cut, decoded, trusted) = parse_id_token-ok g now t id parsed in
      (k, (a, t, p, f, s, is, cut, decoded), trusted)
]

-- ===== src/Auth/Google.antt =====
-- services/api/internal/auth/google.go: sign-in with Google, over the tables users and
-- oauth_identities. The token endpoint, the decoding of a JWT's payload, NormaliseEmail and sha256
-- are arguments; so is whether the authorisation endpoint is a usable URL. A claim's time is in
-- seconds, and every other one in nanoseconds; a negative one, which is long past, counts as 0.
pub mod Linked
pub mod Claimed
use Prim.Native.Char.{code}
use Prim.Native.String.{◌++◌}
use cofound.Prelude.{
  ℕ, ◌*◌, String, Bool, true, false, ◌&&◌, ◌||◌, not, Option, none, some, List, [], ◌∷◌, ltb, ◌==◌,
  ◌=s◌, find, update, and_last, if◌then◌else◌,
}
use cofound.Errs.Types.{Fault, GoError, leaf, typed}
use cofound.Errs.Outcome.{Outcome, ok, err, db_error}
use cofound.Errs.Build.{new, with_message, with_fix}
use cofound.Auth.Token.{Token}
use cofound.Auth.Session.Store.{second}
use cofound.Auth.Session.Ops.{no_random}
use cofound.Auth.Links.{Links, upsert_by_email}

abbrev pub google_issuer : String
google_issuer = "https://accounts.google.com"

-- GoogleConfig
pub record GoogleConfig : Type 0 where
  pub client_id : String
  pub client_secret : String
  pub redirect_url : String
  pub auth_url : String
  pub auth_ok : Bool

-- Challenge
pub record Challenge : Type 0 where
  pub state : String
  pub verifier : String

-- The type of email_verified varies.
pub data Verified : Type 0 where
  flag : Bool → Verified
  word : String → Verified
  other : Verified

-- The claims of an id_token.
pub record Claims : Type 0 where
  pub issuer : String
  pub audience : String
  pub subject : String
  pub email : String
  pub verified : Verified
  pub expiry : ℕ

-- GoogleIdentity
pub record GoogleIdentity : Type 0 where
  pub subject : String
  pub email : String
  pub verified : Bool

-- What the token endpoint answers: its status, and the id_token of its body, or why there is none.
pub record Answer : Type 0 where
  pub status : ℕ
  pub readable : Bool
  pub id_token : Outcome String

-- Google, with what it reaches outside: the token endpoint for a code and a verifier, the claims in
-- the payload of a JWT, NormaliseEmail, and sha256 in base64url, which is pkceChallenge.
pub record Google : Type 0 where
  pub cfg : GoogleConfig
  pub open cfg use *
  pub endpoint : String → String → Outcome Answer
  pub decode : String → Outcome Claims
  pub normalise : String → Outcome String
  pub sha256_url : String → String

abbrev pub plain : String → GoError
plain s = leaf (Fault.driver s)

-- Configured
unfoldable pub configured : GoogleConfig → Bool
configured c = not (c.client_id =s "") && not (c.client_secret =s "") && not (c.redirect_url =s "")

-- NewChallenge, of the two tokens that the random source gives.
unfoldable pub new_challenge : Option Token → Option Token → Outcome Challenge
new_challenge none t = err no_random
new_challenge (some s) none = err no_random
new_challenge (some s) (some v) = ok (record { state = s.raw; verifier = v.raw })

abbrev pub unavailable : GoError
unavailable = typed (
    with_fix "Sign in with an email link instead."
      (with_message "Google sign-in is not available." (new "not_found")))

-- AuthorizeURL: the endpoint and the values of its query.
unfoldable pub authorize_url : Google → Challenge → Outcome (String × List (String × String))
unfolding configured
authorize_url g c =
    if not (configured g.cfg)
    then err unavailable
    else if not g.auth_ok
    then err (db_error "auth: google auth url")
    else ok (
      g.auth_url,
      ("client_id", g.client_id)
          ∷ ("redirect_uri", g.redirect_url)
          ∷ ("response_type", "code")
          ∷ ("scope", "openid email")
          ∷ ("state", c.state)
          ∷ ("code_challenge", g.sha256_url c.verifier)
          ∷ ("code_challenge_method", "S256")
          ∷ [],
    )

-- strings.Split(raw, ".")
unfoldable pub split_dot : String → List String
split_dot String.[] = "" ∷ []
split_dot (String.◌∷◌ c s) = elim (split_dot s) [
  | [] ↦ []
  | p ∷ ps ↦ if code c == b'.' then "" ∷ p ∷ ps else String.◌∷◌ c p ∷ ps
]

unfoldable pub is_verified : Verified → Bool
is_verified (flag b) = b
is_verified (word s) = s =s "true"
is_verified other = false

-- The checks of parseIDToken, on the claims.
unfoldable pub judge_claims : GoogleConfig → ℕ → Claims → Option GoError
judge_claims c now k =
    if not (k.issuer =s google_issuer) && not (k.issuer =s "accounts.google.com")
    then some (plain ("auth: id_token issuer \"" ++ (k.issuer ++ "\" is not Google")))
    else if not (k.audience =s c.client_id)
    then some (plain "auth: id_token was issued for another client")
    else if k.expiry == 0 || ltb (k.expiry * second) now
    then some (plain "auth: id_token has expired")
    else if k.subject =s "" || k.email =s ""
    then some (plain "auth: id_token is missing sub or email")
    else none

-- What parseIDToken makes of the claims.
unfoldable pub identity_of : Google → ℕ → Claims → Outcome GoogleIdentity
identity_of g now k = elim (judge_claims g.cfg now k) [
  | some e ↦ err e
  | none ↦ elim (g.normalise k.email) [
    | err e ↦ err (plain "auth: id_token email is not a valid address")
    | ok email ↦
        ok (record { subject = k.subject; email = email; verified = is_verified k.verified })
  ]
]

unfoldable pub payload_of : List String → Option String
payload_of (h ∷ p ∷ s ∷ []) = some p
payload_of _ = none

-- parseIDToken
unfoldable pub parse_id_token : Google → ℕ → String → Outcome GoogleIdentity
unfolding payload_of
parse_id_token g now raw = elim (payload_of (split_dot raw)) [
  | none ↦ err (plain "auth: id_token is not a JWT")
  | some p ↦ elim (g.decode p) [ err e ↦ err e | ok k ↦ identity_of g now k ]
]

-- Exchange, once the endpoint has answered.
unfoldable pub read_answer : Google → ℕ → Answer → Outcome GoogleIdentity
read_answer g now a =
    if not a.readable
    then err (db_error "auth: token body")
    else if not (a.status == 200)
    then err (plain "auth: token endpoint returned another status")
    else elim a.id_token [
      | err e ↦ err e
      | ok t ↦
          if t =s ""
          then err (plain "auth: token response carried no id_token")
          else parse_id_token g now t
    ]

-- Exchange
unfoldable pub exchange : Google → ℕ → String → Challenge → Outcome GoogleIdentity
exchange g now code c =
    if not (configured g.cfg)
    then err (plain "auth: google is not configured")
    else elim (g.endpoint code c.verifier) [ err e ↦ err e | ok a ↦ read_answer g now a ]

-- A row of oauth_identities; the provider is always google.
pub record Identity : Type 0 where
  pub subject : String
  pub user_id : ℕ
  pub email : String
  pub last_login_at : ℕ

-- The table users, with the sign-in links beside it, and oauth_identities.
pub record Accounts : Type 0 where
  pub links : Links
  pub identities : List Identity

pub data Stmt : Type 0 where
  begin_tx select_identity refresh_identity upsert_user link_identity commit_tx : Stmt

abbrev pub Refuses : Type 0
Refuses = Stmt → Bool

unfoldable pub has_subject : String → Identity → Bool
has_subject subject i = i.subject =s subject

unfoldable pub unverified : GoError
unverified = typed (
    with_fix "Verify it with Google, or sign in with an email link instead."
      (with_message "That Google account's email address is not verified." (new "forbidden")))

-- `update oauth_identities set email = $2, last_login_at = $3 where … subject = $1`
unfoldable pub refresh : GoogleIdentity → ℕ → List Identity → List Identity
unfolding has_subject update
refresh id now =
    update (has_subject id.subject) (λ i. record i { email = id.email; last_login_at = now })

-- The case of a known identity.
unfoldable pub again : Refuses → GoogleIdentity → ℕ → Accounts → ℕ → Accounts × Outcome ℕ
unfolding refresh
again bad id now w user =
    if bad refresh_identity
    then (w, err (db_error "auth: refresh identity"))
    else if bad commit_tx
    then (w, err (db_error "auth: google commit"))
    else (record w { identities = refresh id now w.identities }, ok user)

unfoldable pub new_identity : GoogleIdentity → ℕ → ℕ → Identity
new_identity id user now = record {
  subject = id.subject;
  user_id = user;
  email = id.email;
  last_login_at = now;
}

-- The case of a first sign-in.
unfoldable pub first : Refuses → GoogleIdentity → ℕ → Accounts → Accounts × Outcome ℕ
unfolding new_identity
first bad id now w =
    if bad upsert_user
    then (w, err (db_error "auth: upsert user"))
    else if bad link_identity
    then (w, err (db_error "auth: link identity"))
    else if bad commit_tx
    then (w, err (db_error "auth: google commit"))
    else let (links, user) = upsert_by_email id.email w.links in
      (
        record { links = links; identities = and_last w.identities (new_identity id user now) },
        ok user,
      )

-- Upsert
unfoldable pub upsert_identity : Refuses → GoogleIdentity → ℕ → Accounts → Accounts × Outcome ℕ
unfolding has_subject find
upsert_identity bad id now w =
    if not id.verified
    then (w, err unverified)
    else if bad begin_tx
    then (w, err (db_error "auth: google upsert"))
    else if bad select_identity
    then (w, err (db_error "auth: look up identity"))
    else elim (find (has_subject id.subject) w.identities) [
      | some i ↦ again bad id now w i.user_id
      | none ↦ first bad id now w
    ]

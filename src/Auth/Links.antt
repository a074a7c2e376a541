-- ===== src/Auth/Links.antt =====
-- services/api/internal/auth/magiclink.go over the tables login_tokens and users. A time is in
-- nanoseconds, and the database's clock is taken to be the server's. What NormaliseEmail gives, the
-- random token and `hash`, which stands for sha256, are arguments; so is whether the console's
-- origin is a usable URL. `bad` says which statements, and which mails, fail.
pub mod Throttle
pub mod Single
use cofound.Prelude.{
  ℕ, ◌+◌, ◌*◌, String, Bool, ◌&&◌, ◌||◌, not, Option, none, some, List, [], ◌∷◌, ◌++◌, ltb, leb,
  ◌==◌, ◌=s◌, is_none, find, update, delete, count, if◌then◌else◌,
}
use cofound.Errs.Types.{Fault, GoError, leaf}
use cofound.Auth.Token.{Token, Hash, is_zero}
use cofound.Auth.Session.Store.{Outcome, ok, err, no_session, db_error, second}

pub record MagicLinkPolicy : Type 0 where
  pub ttl : ℕ
  pub max_per_email : ℕ
  pub window : ℕ

-- DefaultMagicLinkPolicy
abbrev pub default_link_policy : MagicLinkPolicy
default_link_policy = record { ttl = 15 * 60 * second; max_per_email = 5; window = 3600 * second }

pub record MagicLinks : Type 0 where
  pub policy : MagicLinkPolicy
  pub open policy use *
  pub base_ok : Bool
  pub hash : Token → Hash

-- A row of login_tokens. The ip and the user agent are left out.
pub record LinkRow : Type 0 where
  pub email : String
  pub token_hash : Hash
  pub expires_at : ℕ
  pub consumed_at : Option ℕ
  pub created_at : ℕ

pub record User : Type 0 where
  pub id : ℕ
  pub email : String

-- The tables, and the mails that have been handed to the mailer.
pub record Links : Type 0 where
  pub tokens : List LinkRow
  pub users : List User
  pub next_user : ℕ
  pub outbox : List (String × Token)

pub data Stmt : Type 0 where
  throttle_check store_token send_mail begin_tx consume_token upsert_user commit_tx : Stmt

abbrev pub Refuses : Type 0
Refuses = Stmt → Bool

-- ErrThrottled
abbrev pub throttled : GoError
throttled = leaf (Fault.driver "auth: too many magic links requested for this address")

abbrev pub failure : String → GoError
failure s = leaf (Fault.driver s)

-- `where email = $1 and created_at > $2`, with the window's start as $2.
unfoldable pub is_recent : ℕ → String → ℕ → LinkRow → Bool
is_recent window email now r = r.email =s email && ltb now (r.created_at + window)

unfoldable pub recent : ℕ → String → ℕ → List LinkRow → ℕ
recent window email now = count (is_recent window email now)

unfoldable pub has_hash : Hash → LinkRow → Bool
has_hash h r = r.token_hash == h

-- `where token_hash = $1 and consumed_at is null and expires_at > $2`
unfoldable pub is_live : Hash → ℕ → LinkRow → Bool
is_live h now r = r.token_hash == h && is_none r.consumed_at && ltb now r.expires_at

unfoldable pub spend : Hash → ℕ → List LinkRow → List LinkRow
spend h now = update (is_live h now) (λ r. record r { consumed_at = some now })

-- `insert into users (email) … on conflict (email) do update … returning id`
unfoldable pub upsert_by_email : String → Links → Links × ℕ
upsert_by_email email w = elim (find (λ (u : User). u.email =s email) w.users) [
  | some u ↦ (w, u.id)
  | none ↦ (
    record w {
      users = w.users ++ record { id = w.next_user; email = email } ∷ [];
      next_user = w.next_user + 1;
    },
    w.next_user,
  )
]

-- The statements of Consume's transaction after the first, and its commit.
unfoldable pub sign_in : Refuses → String → Links → Links → Links × Outcome (ℕ × String)
sign_in bad email before w =
    if bad upsert_user
    then (before, err (db_error "auth: upsert user"))
    else if bad commit_tx
    then (before, err (db_error "auth: consume commit"))
    else let (t, id) = upsert_by_email email w in (t, ok (id, email))

module _ (m : MagicLinks) where
  unfoldable pub link_row : String → Token → ℕ → LinkRow
  link_row email token now = record {
    email = email;
    token_hash = m.hash token;
    expires_at = now + m.ttl;
    consumed_at = none;
    created_at = now;
  }

  -- The insert of Request, with the table's check and its unique hash.
  unfoldable pub store_link : Refuses → String → Token → ℕ → Links → Option Links
  store_link bad email token now w =
      if bad store_token
        || not (ltb now (now + m.ttl))
        || not (is_none (find (has_hash (m.hash token)) w.tokens))
      then none
      else some (record w { tokens = w.tokens ++ link_row email token now ∷ [] })

  -- The end of Request: the link, and the mail.
  unfoldable pub send_link : Refuses → String → Token → Links → Links × Outcome (Unit {0})
  send_link bad email token w =
      if not m.base_ok
      then (w, err (failure "auth: CONSOLE_ORIGIN is not a usable URL"))
      else if bad send_mail
      then (w, err (db_error "auth: send magic link"))
      else (record w { outbox = w.outbox ++ (email, token) ∷ [] }, ok tt)

  -- Request, for a normalised address.
  unfoldable pub request_link :
      Refuses → Option Token → String → ℕ → Links → Links × Outcome (Unit {0})
  request_link bad fresh email now w =
      if bad throttle_check
      then (w, err (db_error "auth: throttle check"))
      else if leb m.max_per_email (recent m.window email now w.tokens)
      then (w, err throttled)
      else elim fresh [
        | none ↦ (w, err (failure "auth: could not read random bytes"))
        | some token ↦ elim (store_link bad email token now w) [
          | none ↦ (w, err (db_error "auth: store login token"))
          | some t ↦ send_link bad email token t
        ]
      ]

  -- Request
  unfoldable pub request :
      Refuses → Option Token → Outcome String → ℕ → Links → Links × Outcome (Unit {0})
  request bad fresh (err e) now w = (w, err e)
  request bad fresh (ok email) now w = request_link bad fresh email now w

  -- Consume
  unfoldable pub consume_link : Refuses → Token → ℕ → Links → Links × Outcome (ℕ × String)
  consume_link bad token now w =
      if is_zero token
      then (w, err no_session)
      else if bad begin_tx
      then (w, err (db_error "auth: consume"))
      else if bad consume_token
      then (w, err (db_error "auth: consume login token"))
      else elim (find (is_live (m.hash token) now) w.tokens) [
        | none ↦ (w, err no_session)
        | some r ↦ sign_in bad r.email w (record w { tokens = spend (m.hash token) now w.tokens })
      ]

-- `delete from login_tokens where expires_at < $1 or consumed_at is not null`, in Sessions.Sweep.
unfoldable pub is_over : ℕ → LinkRow → Bool
is_over now r = ltb r.expires_at now || not (is_none r.consumed_at)

unfoldable pub sweep_links : Bool → ℕ → Links → Links
unfolding is_over delete
sweep_links refused now w =
    if refused then w else record w { tokens = delete (is_over now) w.tokens }

-- ===== src/Auth/Handlers.antt =====
-- services/api/internal/auth/handlers.go: the routes under /v1/auth. What a request decodes to, and
-- what the clock, the random source and the database make of it, are arguments. ParseToken's 43
-- characters are read from the cookie; the ip and the user agent are left out.
pub mod Callback
pub mod Authorised
pub mod Redirected
pub mod SignedOut
use cofound.Prelude.{
  ℕ, String, Bool, true, false, ◌&&◌, Option, none, some, List, [], ◌∷◌, ◌==◌, ◌=s◌, find, and_last,
  if◌then◌else◌,
}
use Prim.Native.Nat.{Ordering}
use Prim.Native.String.{compare}
use cofound.Errs.Types.{Fault, GoError, typed, root}
use cofound.Errs.Outcome.{Outcome, ok, err, db_error}
use cofound.Errs.Build.{unauthenticated, rate_limited, with_message, with_fix}
use cofound.Errs.Wire.{Response}
use cofound.Auth.Token.{Token, is_zero, parse_token}
use cofound.Auth.Session.Store.{Session, Sessions, Store, no_session}
use cofound.Auth.Session.Store as Table
use cofound.Auth.Session.Ops.{Verified, issue, verify}
use cofound.Auth.Session.Admin.{revoke}
use cofound.Auth.Links.{MagicLinks, Links, User, request, consume_link}
use cofound.Auth.Links as Mail
use cofound.Auth.Google.{Google, Accounts}
use cofound.Auth.Google as Provider
use cofound.Auth.Cookies.{CookieConfig, SetCookie, Jar, set_cookie, clear_cookie, read_cookie}
use cofound.Tenancy.Directory.{Directory, Member}
use cofound.Tenancy.Roles.{Role}
use cofound.Httpx.Writer.{Writer, add_header, write_header, no_content, json}

-- AuthOrgMembership
pub record OrgMembership : Type 0 where
  pub id : ℕ
  pub slug : String
  pub name : String
  pub role : Role

-- AuthSession
pub record AuthSession : Type 0 where
  pub id : ℕ
  pub email : String
  pub name : Option String
  pub orgs : List OrgMembership

-- The headers that these handlers set, and the bodies that they send.
pub data Header : Type 0 where
  cookie : SetCookie → Header
  location : String → Header

pub data Body : Type 0 where
  viewer : AuthSession → Body
  problem : Response → Body
  page : String → Body

abbrev pub Reply : Type 0
Reply = Writer Header Body

-- Handlers. `origin` is the scheme and the host of ConsoleOrigin, if it is a usable URL; the names,
-- which nothing here changes, are those of the tables users and orgs.
pub record Handlers : Type 0 where
  pub sessions : Sessions
  pub links : MagicLinks
  pub google : Google
  pub cookies : CookieConfig
  pub audited : Bool
  pub origin : Option String
  pub user_name : ℕ → Option String
  pub org_name : ℕ → String

-- A row that SignIn of AuditWriter adds.
pub record SignedIn : Type 0 where
  pub user : ℕ
  pub method : String

-- The tables.
pub record World : Type 0 where
  pub sessions : Store
  pub accounts : Accounts
  pub directory : Directory
  pub signed_in : List SignedIn

-- What one request meets: the time, the tokens that NewToken gives, and the statements that fail.
pub record Env : Type 0 where
  pub now : ℕ
  pub fresh : Option Token
  pub second_fresh : Option Token
  pub session_bad : Table.Refuses
  pub mail_bad : Mail.Refuses
  pub google_bad : Provider.Refuses
  pub load_user_bad : Bool
  pub load_orgs_bad : Bool
  pub audit_bad : Bool
  pub request_id : String

abbrev pub Handled : Type 0
Handled = World × Reply × Outcome (Unit {0})

-- errors.Is with one of the package's sentinels: the text at the end of the chain.
unfoldable pub is_sentinel : String → GoError → Bool
unfolding root
is_sentinel text e = elim (root e) [
  | none ↦ false
  | some f ↦ elim f [ Fault.driver s ↦ s =s text | _ ↦ false ]
]

abbrev pub is_no_session : GoError → Bool
is_no_session = is_sentinel "auth: no valid session"

abbrev pub put_cookie : SetCookie → Reply → Reply
put_cookie c w = add_header (cookie c) w

-- The memberships of a user, joined with their orgs, in the order of the names.
unfoldable pub place : OrgMembership → List OrgMembership → List OrgMembership
place m [] = m ∷ []
place m (x ∷ xs) =
    let later = x ∷ place m xs in
    elim (compare m.name x.name) [ Ordering.gt ↦ later | _ ↦ m ∷ x ∷ xs ]

unfoldable pub orgs_of : (ℕ → String) → Directory → ℕ → List Member → List OrgMembership
unfolding place find
orgs_of name d user [] = []
orgs_of name d user (m ∷ ms) =
    let rest = orgs_of name d user ms in
    if m.user_id == user
    then elim (find (λ o. o.id == m.org_id) d.orgs) [
      | none ↦ rest
      | some o ↦ place (record { id = o.id; slug = o.slug; name = name o.id; role = m.role }) rest
    ]
    else rest

unfoldable pub flush_rotated : CookieConfig → Token → Reply → Reply
unfolding set_cookie is_zero add_header
flush_rotated c rotated w = if is_zero rotated then w else put_cookie (set_cookie c rotated) w

module _ (h : Handlers) where
  -- view
  unfoldable pub view : Env → World → ℕ → Outcome AuthSession
  unfolding orgs_of find
  view env w user =
      if env.load_user_bad
      then err (db_error "auth: load user")
      else elim (find (λ (u : User). u.id == user) w.accounts.links.users) [
        | none ↦ err (db_error "auth: load user")
        | some u ↦
            if env.load_orgs_bad
            then err (db_error "auth: load orgs")
            else ok (record {
              id = user;
              email = u.email;
              name = h.user_name user;
              orgs = orgs_of h.org_name w.directory user w.directory.members;
            })
      ]

  -- The answer with the viewer, or the error of view.
  unfoldable pub show_viewer : World → Reply → Outcome AuthSession → Handled
  unfolding json
  show_viewer w r (err e) = (w, r, err e)
  show_viewer w r (ok v) = (w, json 200 (viewer v) r, ok tt)

  -- recordSignIn: a failing insert is ignored.
  unfoldable pub record_sign_in : Env → World → ℕ → String → World
  record_sign_in env w user method =
      if h.audited && (if env.audit_bad then false else true)
      then record w { signed_in = and_last w.signed_in (record { user = user; method = method }) }
      else w

  -- signIn, once Issue has returned.
  unfoldable pub signed_in_as :
      Env → World → Reply → ℕ → String → Outcome (Token × Session) → Handled
  unfolding view show_viewer record_sign_in set_cookie add_header
  signed_in_as env w r user method (err e) = (w, r, err e)
  signed_in_as env w r user method (ok (token, s)) =
      let v = record_sign_in env w user method in
      show_viewer v (put_cookie (set_cookie h.cookies token) r) (view env v user)

  -- signIn
  unfoldable pub sign_in : Env → World → Reply → ℕ → String → Handled
  unfolding signed_in_as
  sign_in env w r user method =
      let (s, o) = issue h.sessions env.session_bad env.fresh w.sessions user env.now in
      signed_in_as env (record w { sessions = s }) r user method o

  -- What requestMagicLink answers, from what Request returned.
  unfoldable pub answer_link : World → Reply → Outcome (Unit {0}) → Handled
  unfolding is_sentinel write_header
  answer_link w r (ok u) = (w, write_header 202 r, ok tt)
  answer_link w r (err e) =
      if is_sentinel "auth: too many magic links requested for this address" e
      then (
        w,
        r,
        err (
            typed (
              with_fix "Check your inbox, or wait a few minutes and try again." (
                with_message "Too many sign-in links have been requested for that address."
                  (rate_limited h.links.window)))),
      )
      else (w, r, err e)

  -- requestMagicLink
  unfoldable pub request_magic_link : Env → Outcome String → World → Reply → Handled
  unfolding answer_link
  request_magic_link env (err e) w r = (w, r, err e)
  request_magic_link env (ok email) w r =
      let (links, o) =
        request h.links env.mail_bad env.fresh (h.google.normalise email) env.now
          w.accounts.links in
      answer_link (record w { accounts = record w.accounts { links = links } }) r o

  -- verifyMagicLink, once Consume has returned.
  unfoldable pub consumed : Env → World → Reply → Outcome (ℕ × String) → Handled
  unfolding sign_in is_sentinel
  consumed env w r (ok (user, email)) = sign_in env w r user "magic_link"
  consumed env w r (err e) =
      if is_no_session e
      then (
        w,
        r,
        err (
            typed (
              with_fix "Request a new one."
                (with_message "That sign-in link is no longer valid." unauthenticated))),
      )
      else (w, r, err e)

  -- verifyMagicLink
  unfoldable pub verify_magic_link : Env → Outcome String → World → Reply → Handled
  unfolding consumed parse_token
  verify_magic_link env (err e) w r = (w, r, err e)
  verify_magic_link env (ok raw) w r = elim (parse_token raw) [
    | none ↦ (w, r, err (typed unauthenticated))
    | some token ↦
        let (links, o) = consume_link h.links env.mail_bad token env.now w.accounts.links in
        consumed env (record w { accounts = record w.accounts { links = links } }) r o
  ]

  -- getSession, once Verify has returned.
  unfoldable pub session_view : Env → World → Reply → Outcome Verified → Handled
  unfolding view show_viewer is_sentinel flush_rotated clear_cookie add_header
  session_view env w r (err e) =
      if is_no_session e
      then (w, put_cookie (clear_cookie h.cookies) r, err (typed unauthenticated))
      else (w, r, err e)
  session_view env w r (ok (s, rotated)) =
      show_viewer w (flush_rotated h.cookies rotated r) (view env w s.user_id)

  -- getSession
  unfoldable pub get_session : Env → Jar → World → Reply → Handled
  unfolding session_view read_cookie
  get_session env jar w r = elim (read_cookie jar) [
    | none ↦ (w, r, err (typed unauthenticated))
    | some token ↦
        let (s, o) = verify h.sessions env.session_bad env.fresh w.sessions token env.now in
        session_view env (record w { sessions = s }) r o
  ]

  -- The end of signOut.
  unfoldable pub cleared : World → Reply → Handled
  unfolding clear_cookie no_content add_header
  cleared w r = (w, no_content (put_cookie (clear_cookie h.cookies) r), ok tt)

  -- signOut, once Verify has returned.
  unfoldable pub sign_out_of : Env → World → Reply → Outcome Verified → Handled
  unfolding cleared
  sign_out_of env w r (err e) = cleared w r
  sign_out_of env w r (ok (s, rotated)) =
      let (t, o) = revoke env.session_bad w.sessions s.id "signed out" env.now in
      elim o [
        | err e ↦ (record w { sessions = t }, r, err e)
        | ok u ↦ cleared (record w { sessions = t }) r
      ]

  -- signOut
  unfoldable pub sign_out : Env → Jar → World → Reply → Handled
  unfolding sign_out_of cleared read_cookie
  sign_out env jar w r = elim (read_cookie jar) [
    | none ↦ cleared w r
    | some token ↦
        let (s, o) = verify h.sessions env.session_bad env.fresh w.sessions token env.now in
        sign_out_of env (record w { sessions = s }) r o
  ]

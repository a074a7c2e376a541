-- ===== src/Auth/Cookies.antt =====
-- services/api/internal/auth/cookie.go: the session cookie.
use cofound.Prelude.{ℕ, ◌/◌, String, Bool, Option, none, some, List, lookup, if◌then◌else◌}
use cofound.Auth.Token.{Token, parse_token}
use cofound.Auth.Session.Store.{second}

-- http.Cookie's MaxAge: seconds, or -1 to delete.
pub data MaxAge : Type 0 where
  lasts : ℕ → MaxAge
  gone : MaxAge

-- http.Cookie, always HttpOnly and SameSite=Lax, and never with a Domain.
pub record SetCookie : Type 0 where
  pub name : String
  pub value : String
  pub path : String
  pub secure : Bool
  pub max_age : MaxAge

-- CookieName and insecureCookieName
abbrev pub cookie_name : String
cookie_name = "__Host-halyard_session"

abbrev pub insecure_cookie_name : String
insecure_cookie_name = "halyard_session"

-- CookieConfig, with MaxAge in nanoseconds.
pub record CookieConfig : Type 0 where
  pub secure : Bool
  pub max_age : ℕ

-- Name
unfoldable pub name_of : CookieConfig → String
name_of c = if c.secure then cookie_name else insecure_cookie_name

-- Set
unfoldable pub set_cookie : CookieConfig → Token → SetCookie
unfolding name_of
set_cookie c token = record {
  name = name_of c;
  value = token.raw;
  path = "/";
  secure = c.secure;
  max_age = lasts (c.max_age / second);
}

-- Clear
unfoldable pub clear_cookie : CookieConfig → SetCookie
unfolding name_of
clear_cookie c = record {
  name = name_of c;
  value = "";
  path = "/";
  secure = c.secure;
  max_age = gone;
}

-- The cookies of a request, by their names; r.Cookie gives the first of a name.
abbrev pub Jar : Type 0
Jar = List (String × String)

-- One turn of the loop of Read.
unfoldable pub token_under : String → Jar → Option Token
unfolding lookup
token_under name jar = elim (lookup name jar) [ none ↦ none | some v ↦ parse_token v ]

-- Read
unfoldable pub read_cookie : Jar → Option Token
unfolding token_under
read_cookie jar = elim (token_under cookie_name jar) [
  | some t ↦ some t
  | none ↦ token_under insecure_cookie_name jar
]

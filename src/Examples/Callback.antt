-- ===== src/Examples/Callback.antt =====
-- Sign-in with Google, of services/api/internal/auth, at concrete inputs.
use cofound.Prelude.{ℕ, ◌≡◌, ◌⊎◌, refl, true, false, List, [], ◌∷◌, find, update}
use cofound.Errs.Outcome.{ok}
use cofound.Auth.Cookies.{Jar}
use cofound.Auth.Google.{
  GoogleIdentity, Challenge, Claims, Accounts, Refuses, exchange, configured, read_answer,
  parse_id_token, payload_of, split_dot, identity_of, judge_claims, is_verified, upsert_identity,
  has_subject, again, first, new_identity, refresh,
}
use cofound.Auth.Google.Claimed.{Proves, IsTrusted, exchange-IsTrusted}
use cofound.Auth.Google.Linked.{upserts, upserts-same_user}
use cofound.Auth.Links.{upsert_by_email}
use cofound.Auth.Handlers.Callback.{Query, complete_google}
use cofound.Auth.Handlers.Authorised.{IsEarned, complete_google-IsEarned}
use cofound.Auth.Handlers.Redirected.{KeepsChallenge, complete_google-KeepsChallenge}
use cofound.Httpx.Writer.{wrap}
use cofound.Examples.Serving.{google, handlers, world, env}

abbrev challenge : Challenge
challenge = record { state = "st"; verifier = "ve" }

abbrev ann : GoogleIdentity
ann = record { subject = "sub-1"; email = "ann@acme.test"; verified = true }

exchanged : exchange google 60 "code" challenge ≡ ok ann
unfolding exchange configured read_answer parse_id_token payload_of split_dot identity_of
    judge_claims is_verified
exchanged = refl

exchange-IsTrusted_example :
    (k : Claims) × Proves google "code" challenge k × IsTrusted google 60 k ann
exchange-IsTrusted_example = exchange-IsTrusted google 60 "code" challenge ann exchanged

abbrev all_go : Refuses
all_go s = false

abbrev nobody : Accounts
nobody = world.accounts

-- The same subject with another address, after someone else has taken the first one.
abbrev ann_moved : GoogleIdentity
ann_moved = record { subject = "sub-1"; email = "ann@globex.test"; verified = true }

abbrev usurper : GoogleIdentity
usurper = record { subject = "sub-2"; email = "ann@acme.test"; verified = true }

abbrev between : List (Refuses × GoogleIdentity × ℕ)
between = (all_go, usurper, 20) ∷ []

abbrev once : Accounts
once = (upsert_identity all_go ann 10 nobody).0

first_time : (upsert_identity all_go ann 10 nobody).1 ≡ ok 1
unfolding upsert_identity first has_subject find upsert_by_email new_identity
first_time = refl

second_time : (upsert_identity all_go ann_moved 30 (upserts between once)).1 ≡ ok 1
unfolding upsert_identity first again refresh has_subject find update upsert_by_email new_identity
    upserts
second_time = refl

upserts-same_user_example : ◌≡◌ {A = ℕ} 1 1
upserts-same_user_example =
    upserts-same_user all_go all_go ann ann_moved 10 30 nobody 1 1 between first_time refl
      second_time

abbrev jar : Jar
jar = ("halyard_oauth_challenge", "st.ve") ∷ []

abbrev query : Query
query = record { error = ""; state = "st"; code = "code" }

complete_google-IsEarned_example :
    ((complete_google handlers env query jar world wrap).0.sessions ≡ world.sessions)
    ⊎ IsEarned handlers env query jar world
        (complete_google handlers env query jar world wrap).0.sessions
complete_google-IsEarned_example = complete_google-IsEarned handlers env query jar world wrap

complete_google-KeepsChallenge_example :
    KeepsChallenge (complete_google handlers env query jar world wrap)
complete_google-KeepsChallenge_example = complete_google-KeepsChallenge handlers env query jar world

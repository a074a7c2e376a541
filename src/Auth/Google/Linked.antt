-- ===== src/Auth/Google/Linked.antt =====
-- services/api/internal/auth/google.go: which user an identity signs in.
use cofound.Prelude.{
  ℕ, String, ◌≡◌, refl, Option, none, some, List, [], ◌∷◌, arith, inl, inr, Option-cases, find,
  find-update, find-append, eq_refl,
}
use cofound.Errs.Outcome.{ok}
use cofound.Auth.Google.{
  GoogleIdentity, Identity, Accounts, Refuses, has_subject, refresh, again, first, new_identity,
  upsert_identity,
}
use cofound.Auth.Links.{upsert_by_email}

abbrev pub user_of : Option Identity → Option ℕ
user_of none = none
user_of (some i) = some i.user_id

-- The user that a subject is linked to.
abbrev pub linked : String → Accounts → Option ℕ
linked subject w = user_of (find (has_subject subject) w.identities)

linked-some :
    (s : String) (w : Accounts) (u : ℕ)
    → linked s w ≡ some u
    → (i : Identity) × (find (has_subject s) w.identities ≡ some i) × (i.user_id ≡ u)
linked-some s w u e = elim (Option-cases (find (has_subject s) w.identities)) [
  | inl n ↦ absurd (ground arith)
  | inr (i, f) ↦ (i, f, ground arith)
]

-- The user of a row that `refresh` writes is as it was.
linked-refresh :
    (s : String) (id : GoogleIdentity) (now : ℕ) (w : Accounts) (u : ℕ)
    → linked s w ≡ some u
    → linked s (record w { identities = refresh id now w.identities }) ≡ some u
unfolding refresh has_subject
linked-refresh s id now w u e =
    let (i, f, own) = linked-some s w u e in
    ground (
      arith,
      find-update (has_subject s) (has_subject id.subject)
          (λ i. record i { email = id.email; last_login_at = now }) w.identities (λ x. refl),
    )

linked-first :
    (bad : Refuses) (s : String) (id : GoogleIdentity) (now : ℕ) (w : Accounts) (u : ℕ)
    → linked s w ≡ some u
    → linked s (first bad id now w).0 ≡ some u
unfolding first
linked-first bad s id now w u e =
    let (i, f, own) = linked-some s w u e in
    ground (
      arith,
      find-append (has_subject s) w.identities
          (new_identity id (upsert_by_email id.email w.links).1 now ∷ []),
    )

linked-again :
    (bad : Refuses) (s : String) (id : GoogleIdentity) (now : ℕ) (w : Accounts) (u v : ℕ)
    → linked s w ≡ some u
    → linked s (again bad id now w v).0 ≡ some u
unfolding again
linked-again bad s id now w u v e = ground (arith, linked-refresh s id now w u e)

-- A call of Upsert leaves every subject that is linked with its user.
linked-upsert :
    (bad : Refuses) (s : String) (id : GoogleIdentity) (now : ℕ) (w : Accounts) (u : ℕ)
    → linked s w ≡ some u
    → linked s (upsert_identity bad id now w).0 ≡ some u
unfolding upsert_identity
linked-upsert bad s id now w u e =
    elim (Option-cases (find (has_subject id.subject) w.identities)) [
      | inl n ↦ ground (arith, linked-first bad s id now w u e)
      | inr (i, f) ↦ ground (arith, linked-again bad s id now w u i.user_id e)
    ]

again-ok :
    (bad : Refuses) (id : GoogleIdentity) (now : ℕ) (w : Accounts) (u v : ℕ)
    → linked id.subject w ≡ some v
    → (again bad id now w v).1 ≡ ok u
    → (v ≡ u) × (linked id.subject (again bad id now w v).0 ≡ some u)
unfolding again
again-ok bad id now w u v e h = ground (arith, linked-refresh id.subject id now w v e)

first-ok :
    (bad : Refuses) (id : GoogleIdentity) (now : ℕ) (w : Accounts) (u : ℕ)
    → find (has_subject id.subject) w.identities ≡ none
    → (first bad id now w).1 ≡ ok u
    → linked id.subject (first bad id now w).0 ≡ some u
unfolding first has_subject find
first-ok bad id now w u n h = ground (
  arith,
  find-append (has_subject id.subject) w.identities
      (new_identity id (upsert_by_email id.email w.links).1 now ∷ []),
  eq_refl id.subject,
)

-- When Upsert gives a user, the subject is linked to that user from then on; and if it was linked
-- before, it was to that one.
upsert_identity-ok :
    (bad : Refuses) (id : GoogleIdentity) (now : ℕ) (w : Accounts) (u : ℕ)
    → (upsert_identity bad id now w).1 ≡ ok u
    → linked id.subject (upsert_identity bad id now w).0 ≡ some u
unfolding upsert_identity
upsert_identity-ok bad id now w u h =
    elim (Option-cases (find (has_subject id.subject) w.identities)) [
      | inl n ↦ ground (arith, first-ok bad id now w u n)
      | inr (i, f) ↦ ground (arith, again-ok bad id now w u i.user_id)
    ]

upsert_identity-known :
    (bad : Refuses) (id : GoogleIdentity) (now : ℕ) (w : Accounts) (u v : ℕ)
    → linked id.subject w ≡ some v
    → (upsert_identity bad id now w).1 ≡ ok u
    → u ≡ v
unfolding upsert_identity again
upsert_identity-known bad id now w u v e h =
    let (i, f, own) = linked-some id.subject w v e in ground arith

-- A run of calls of Upsert, each with what the database refuses, its identity and its time.
unfoldable pub upserts : List (Refuses × GoogleIdentity × ℕ) → Accounts → Accounts
unfolding upsert_identity
upserts [] w = w
upserts ((bad, id, now) ∷ cs) w = upserts cs (upsert_identity bad id now w).0

linked-upserts :
    (s : String) (cs : List (Refuses × GoogleIdentity × ℕ)) (w : Accounts) (u : ℕ)
    → linked s w ≡ some u
    → linked s (upserts cs w) ≡ some u
unfolding upserts
linked-upserts s [] w u e = e
linked-upserts s ((bad, id, now) ∷ cs) w u e =
    linked-upserts s cs (upsert_identity bad id now w).0 u (linked-upsert bad s id now w u e)

-- Once a Google subject has signed in as a user, every later sign-in of that subject that succeeds
-- is as the same user, whatever addresses this subject and others have asserted in between and
-- whichever statements have failed.
pub upserts-same_user :
    (bad bad' : Refuses) (id id' : GoogleIdentity) (now now' : ℕ) (w : Accounts) (u u' : ℕ)
    (cs : List (Refuses × GoogleIdentity × ℕ))
    → (upsert_identity bad id now w).1 ≡ ok u
    → id'.subject ≡ id.subject
    → (upsert_identity bad' id' now' (upserts cs (upsert_identity bad id now w).0)).1 ≡ ok u'
    → u' ≡ u
upserts-same_user bad bad' id id' now now' w u u' cs h same h' =
    let kept =
      linked-upserts id.subject cs (upsert_identity bad id now w).0 u
        (upsert_identity-ok bad id now w u h) in
    upsert_identity-known bad' id' now' (upserts cs (upsert_identity bad id now w).0) u' u
      (rw same kept) h'

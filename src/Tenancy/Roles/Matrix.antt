-- ===== src/Tenancy/Roles/Matrix.antt =====
-- The matrix, held to lists of actions that are written out per role.
use cofound.Prelude.{
  ◌≡◌, refl, Bool, true, false, String, List, [], ◌∷◌, ◌++◌, none, some, arith, eq_iff, ◌=s◌,
  lookup, keys, contains, distinct, subst, inl, inr, Bool-cases, if◌then◌else◌,
}
use cofound.Tenancy.Roles.{
  Role, Action, role_owner, role_admin, role_editor, role_viewer, ranked, index, minimum, allows,
  rank, can,
}

-- The keys whose value passes a test.
keys_where : (String → Bool) → List (String × String) → List String
keys_where p [] = []
keys_where p ((k, v) ∷ m) = if p v then k ∷ keys_where p m else keys_where p m

contains-keys_where :
    (p : String → Bool) (a : String) (m : List (String × String))
    → contains (keys m) a ≡ false
    → contains (keys_where p m) a ≡ false
unfolding contains keys keys_where
contains-keys_where p a [] h = refl
contains-keys_where p a ((k, v) ∷ m) h = ground (arith, contains-keys_where p a m)

-- With distinct keys, testing the value of a key is looking the key up among those that pass.
lookup-keys_where :
    (p : String → Bool) (a : String) (m : List (String × String))
    → distinct (keys m) ≡ true
    → (elim (lookup a m) [ none ↦ false | some v ↦ p v ]) ≡ contains (keys_where p m) a
unfolding contains keys keys_where lookup distinct
lookup-keys_where p a [] d = refl
lookup-keys_where p a ((k, v) ∷ m) d = ground (
  arith,
  lookup-keys_where p a m,
  contains-keys_where p k m,
  contains-keys_where p a m,
  eq_iff k a,
)

minimum-distinct : distinct (keys minimum) ≡ true
unfolding distinct keys minimum contains
minimum-distinct = refl

can-keys_where : (r : Role) (a : Action) → can r a ≡ contains (keys_where (allows r) minimum) a
unfolding can
can-keys_where r a = lookup-keys_where (allows r) a minimum minimum-distinct

abbrev pub reads : List Action
reads = "org.read" ∷ "project.read" ∷ "timeline.read" ∷ []

abbrev pub builds : List Action
builds =
    "project.create" ∷ "project.update" ∷ "build" ∷ "deploy.preview" ∷ "proposal.create"
    ∷ "file.write" ∷ "restore" ∷ []

abbrev pub administers : List Action
administers =
    "member.invite" ∷ "member.remove" ∷ "member.role_change" ∷ "secret.write" ∷ "domain.change"
    ∷ "deploy.production" ∷ "rollback" ∷ "capability.install" ∷ "repo.link" ∷ []

abbrev pub spends : List Action
spends = "proposal.approve" ∷ "budget.change" ∷ "ads.spend" ∷ "domain.purchase" ∷ []

abbrev pub owns : List Action
owns =
    "billing.read" ∷ "billing.write" ∷ "credit.purchase" ∷ "org.delete" ∷ "org.transfer"
    ∷ "project.delete" ∷ []

-- The actions that each role may do, as lists.
abbrev pub granted : Role → List Action
granted r =
    if role_owner =s r
    then reads ++ "secret.read" ∷ builds ++ administers ++ spends ++ owns
    else if role_admin =s r
    then reads ++ "secret.read" ∷ builds ++ administers ++ spends
    else if role_editor =s r
    then reads ++ builds
    else if role_viewer =s r
    then reads
    else []

-- A role that is none of the four may do nothing.
keys_where-unknown :
    (r : Role) (m : List (String × Role)) → rank r ≡ none → keys_where (allows r) m ≡ []
unfolding keys_where allows
keys_where-unknown r [] e = refl
keys_where-unknown r ((k, v) ∷ m) e = ground (arith, keys_where-unknown r m e)

rank-unknown :
    (r : Role)
    → (role_owner =s r) ≡ false
    → (role_admin =s r) ≡ false
    → (role_editor =s r) ≡ false
    → (role_viewer =s r) ≡ false
    → rank r ≡ none
unfolding rank index ranked
rank-unknown r o a e v = ground arith

known :
    (r k : Role)
    → (k =s r) ≡ true
    → keys_where (allows k) minimum ≡ granted k
    → keys_where (allows r) minimum ≡ granted r
known r k e h = subst (λ x. keys_where (allows x) minimum ≡ granted x) ((eq_iff k r).0 e) h

keys_where-granted : (r : Role) → keys_where (allows r) minimum ≡ granted r
unfolding keys_where allows minimum rank
keys_where-granted r = elim (Bool-cases (role_owner =s r)) [
  | inl o ↦ known r role_owner o refl
  | inr o ↦ elim (Bool-cases (role_admin =s r)) [
    | inl a ↦ known r role_admin a refl
    | inr a ↦ elim (Bool-cases (role_editor =s r)) [
      | inl e ↦ known r role_editor e refl
      | inr e ↦ elim (Bool-cases (role_viewer =s r)) [
        | inl v ↦ known r role_viewer v refl
        | inr v ↦ rw (o, a, e, v) (keys_where-unknown r minimum (rank-unknown r o a e v))
      ]
    ]
  ]
]

-- For every role and action, known or not, the matrix answers yes exactly for the actions that
-- are written out for the role: reads for a viewer, also builds for an editor, also administration,
-- spending and reading secrets for an admin, also billing, deletion and transfer for an owner,
-- and none for any other role.
pub can-granted : (r : Role) (a : Action) → can r a ≡ contains (granted r) a
can-granted r a = rw (can-keys_where r a, keys_where-granted r)

-- ===== src/Db/Scope.antt =====
-- packages/db/scope.go over a pooled connection, with what PostgreSQL documents of it: a set_config that
-- is local holds for the transaction that it stands in, another one for the session once the
-- transaction commits, and a rollback undoes both, and what the transaction wrote.
use cofound.Prelude.{String, Bool, ◌&&◌, ◌=s◌, if◌then◌else◌}
use cofound.Errs.Types.{Fault, GoError, leaf}
use cofound.Errs.Outcome.{Outcome, ok, err, db_error}

-- Principal; an id is empty if it is not known.
pub record Principal : Type 0 where
  pub org_id : String
  pub user_id : String

-- The settings app.org_id and app.user_id of a connection.
pub record Settings : Type 0 where
  pub org : String
  pub user : String

-- A connection: its settings, and the database as it sees it.
pub record Conn (D : Type 0) : Type 0 where
  pub settings : Settings
  pub rows : D

-- How the function that runs in the transaction ends: it returns, or it panics.
pub data Ran (A : Type 0) : Type 0 where
  returned : Outcome A → Ran A
  panicked : Ran A

pub data Stmt : Type 0 where
  begin_tx set_org set_user commit_tx : Stmt

abbrev pub Refuses : Type 0
Refuses = Stmt → Bool

-- ErrNoOrg and ErrNoUser
abbrev pub no_org : GoError
no_org = leaf (Fault.driver "db: Scope requires an org id")

abbrev pub no_user : GoError
no_user = leaf (Fault.driver "db: ScopeUser requires a user id")

-- A transaction: the settings that the session will have, those that hold now, and the rows.
pub record Tx (D : Type 0) : Type 0 where
  pub session : Settings
  pub current : Settings
  pub rows : D

-- What runs in a transaction: it sees and changes all of it.
abbrev pub Body : Type 0 → Type 0 → Type 0
Body D A = Tx D → Tx D × Ran A

-- A body that sets nothing.
abbrev pub Plain : Type 0 → Type 0 → Type 0
Plain D A = Settings → D → D × Ran A

unfoldable pub plain : {D A : Type 0} → Plain D A → Body D A
plain f t = let (d, r) = f t.current t.rows in (record t { rows = d }, r)

pub data Setting : Type 0 where
  app_org app_user : Setting

abbrev pub assigned : Setting → String → Settings → Settings
assigned app_org v s = record s { org = v }
assigned app_user v s = record s { user = v }

-- `set_config(name, value, is_local)`
unfoldable pub set_config : {D : Type 0} → Bool → Setting → String → Tx D → Tx D
set_config is_local k v t =
    if is_local
    then record t { current = assigned k v t.current }
    else record t { current = assigned k v t.current; session = assigned k v t.session }

unfoldable pub begun : {D : Type 0} → Conn D → Tx D
begun c = record { session = c.settings; current = c.settings; rows = c.rows }

unfoldable pub committed : {D : Type 0} → Tx D → Conn D
committed t = record { settings = t.session; rows = t.rows }

-- What ScopeAs does before fn.
unfoldable pub with_org : {D : Type 0} → Principal → Tx D → Tx D
unfolding set_config
with_org who t = if who.org_id =s "" then t else set_config Bool.true app_org who.org_id t

unfoldable pub with_user : {D : Type 0} → Principal → Tx D → Tx D
unfolding set_config
with_user who t = if who.user_id =s "" then t else set_config Bool.true app_user who.user_id t

-- Whether a set_config is sent, and refused.
unfoldable pub set_fails : Refuses → Stmt → String → Bool
set_fails bad stmt v = if v =s "" then Bool.false else bad stmt

module _ {D A : Type 0} (bad : Refuses) where
  -- The end of ScopeAs, once fn has run in a transaction that began on `c`.
  unfoldable pub settle : Conn D → Tx D × Ran A → Conn D × Ran A
  unfolding committed
  settle c (t, panicked) = (c, panicked)
  settle c (t, returned (err e)) = (c, returned (err e))
  settle c (t, returned (ok a)) =
      if bad commit_tx
      then (c, returned (err (db_error "db: commit")))
      else (committed t, returned (ok a))

  -- ScopeAs
  unfoldable pub scope_as : Principal → Body D A → Conn D → Conn D × Ran A
  unfolding settle begun with_org with_user set_fails
  scope_as who fn c =
      if who.org_id =s "" && who.user_id =s ""
      then (c, returned (err no_org))
      else if bad begin_tx
      then (c, returned (err (db_error "db: begin")))
      else if set_fails bad set_org who.org_id
      then (c, returned (err (db_error "db: scope to org")))
      else if set_fails bad set_user who.user_id
      then (c, returned (err (db_error "db: scope to user")))
      else settle c (fn (with_user who (with_org who (begun c))))

  -- ScopeUser
  unfoldable pub scope_user : String → Body D A → Conn D → Conn D × Ran A
  unfolding scope_as
  scope_user user fn c =
      if user =s ""
      then (c, returned (err no_user))
      else scope_as (record { org_id = ""; user_id = user }) fn c

  -- Scope
  unfoldable pub scope : String → Body D A → Conn D → Conn D × Ran A
  unfolding scope_as
  scope org fn c =
      if org =s ""
      then (c, returned (err no_org))
      else scope_as (record { org_id = org; user_id = "" }) fn c

  -- ScopeOrgAndUser
  unfoldable pub scope_org_and_user : String → String → Body D A → Conn D → Conn D × Ran A
  unfolding scope_as
  scope_org_and_user org user fn c =
      if org =s ""
      then (c, returned (err no_org))
      else scope_as (record { org_id = org; user_id = user }) fn c

-- ===== src/Storage/Defs.antt =====
-- The batch operations of sqlite_batch_operations.go: the flush hooks open and close a transaction, in
-- which the registered operations write, and the streams of sqlite_storage.go. The database is
-- a parameter: what its parts do to its content, by the number of transactions begun before.
use Prim.Native.String.{◌++◌}
use sprawler.Common.{
  ℕ, ◌+◌, String, Bool, true, false, Option, none, some, List, [], ◌∷◌, str_eq, if◌then◌else◌,
}
use sprawler.Model.{Site, SiteUser, UserProfile, SiteGroup, GroupMember}
use sprawler.BatchWriter.Defs.{
  Item, Error, reported, Action, FlushHooks, Writer, set_flush_hooks, register,
}
use sprawler.Storage.Rows.{
  UpsertSiteParams, UpsertSiteUserParams, UpsertUserProfileParams, UpsertSiteGroupsBatchParams,
  UpsertGroupMembersBatchParams, site_params, site_user_params, user_profile_params,
  site_group_params, group_member_params,
}

-- The values of the queue's items.
pub data Entity : Type 0 where
  site : Site → Entity
  site_user : SiteUser → Entity
  user_profile : UserProfile → Entity
  site_group : SiteGroup → Entity
  group_member : GroupMember → Entity

pub data Row : Type 0 where
  site_row : UpsertSiteParams → Row
  site_user_row : UpsertSiteUserParams → Row
  user_profile_row : UpsertUserProfileParams → Row
  site_group_row : UpsertSiteGroupsBatchParams → Row
  group_member_row : UpsertGroupMembersBatchParams → Row

unfoldable pub row_of : Entity → Row
unfolding site_params site_user_params user_profile_params site_group_params group_member_params
row_of (site s) = site_row (site_params s)
row_of (site_user u) = site_user_row (site_user_params u)
row_of (user_profile p) = user_profile_row (user_profile_params p)
row_of (site_group g) = site_group_row (site_group_params g)
row_of (group_member m) = group_member_row (group_member_params m)

-- The kinds, by the names that the queue's items carry.
unfoldable pub kind_of : Entity → String
kind_of (site s) = "sites"
kind_of (site_user u) = "site_users"
kind_of (user_profile p) = "user_profiles"
kind_of (site_group g) = "site_groups"
kind_of (group_member m) = "group_members"

abbrev pub kinds : List String
kinds = "sites" ∷ "site_users" ∷ "user_profiles" ∷ "site_groups" ∷ "group_members" ∷ []

-- What the code uses of the database: whether a transaction begins, an insert or upsert of a row
-- (`true` for insert), the content after a commit of a transaction's own content over the one
-- before it, and after a rollback of it.
pub record Db (D : Type 0) : Type 0 where
  pub begin : ℕ → Option String
  pub exec : ℕ → Bool → Row → D → D × Option String
  pub commit : ℕ → D → D → D × Option String
  pub rollback : ℕ → D → D → D

-- The content, what the open transaction sees, whether the active queries are the transaction's,
-- and the number of transactions so far.
pub record World (D : Type 0) : Type 0 where
  pub committed : D
  pub view : D
  pub is_active : Bool
  pub begun : ℕ

-- A database with no transaction.
abbrev pub idle : {D : Type 0} → D → World D
idle d = record { committed = d; view = d; is_active = false; begun = 0 }

-- What `RegisterTyped` answers for an item of another type.
abbrev pub wrong_type : String → Error
wrong_type kind = reported ("kind " ++ (kind ++ ": unexpected type"))

module _ {D : Type 0} (db : Db D) where
  -- `Before`: a transaction starts from the content.
  unfoldable pub begin_tx : Action (World D)
  begin_tx w = elim (db.begin w.begun) [
    | some e ↦ (record w { begun = w.begun + 1 }, some (reported ("begin tx: " ++ e)))
    | none ↦ (record w { view = w.committed; is_active = true; begun = w.begun + 1 }, none)
  ]

  abbrev pub reported_error : Option String → Option Error
  reported_error none = none
  reported_error (some e) = some (reported e)

  -- `After`: the active queries are the database's again in every case. It runs only after a
  -- `Before` that has begun a transaction.
  unfoldable pub end_tx : Option Error → Action (World D)
  end_tx (some e) w =
      (record w { committed = db.rollback w.begun w.committed w.view; is_active = false }, some e)
  end_tx none w =
      let (d, err) = db.commit w.begun w.committed w.view in
      (record w { committed = d; is_active = false }, reported_error err)

  unfoldable pub flush_hooks : FlushHooks (World D)
  unfolding begin_tx end_tx
  flush_hooks = record { before = some begin_tx; after = some end_tx }

  -- A row is written by the active queries.
  unfoldable pub exec_row : Bool → Row → World D → World D × Option String
  exec_row use_inserts row w =
      if w.is_active
      then (let (d, err) = db.exec w.begun use_inserts row w.view in (record w { view = d }, err))
      else (let (d, err) = db.exec w.begun use_inserts row w.committed in
          (record w { committed = d }, err))

  module _ (use_inserts : Bool) (err_label : Entity → String) where
    abbrev pub verb : String
    verb = if use_inserts then "insert" else "upsert"

    abbrev pub labelled : Entity → Option String → Option Error
    labelled e none = none
    labelled e (some err) =
        some (reported ("failed to " ++ (verb ++ (" " ++ (err_label e ++ (": " ++ err))))))

    -- The operation of a kind: an item of another type is refused.
    unfoldable pub operation : String → Entity → Action (World D)
    unfolding exec_row row_of kind_of
    operation kind e w =
        if str_eq (kind_of e) kind
        then (let (w', err) = exec_row use_inserts (row_of e) w in (w', labelled e err))
        else (w, some (wrong_type kind))

    unfoldable pub register_kinds : List String → Writer (World D) Entity → Writer (World D) Entity
    unfolding operation
    register_kinds [] q = q
    register_kinds (k ∷ ks) q = register_kinds ks (register k (operation k) q)

    unfoldable pub register_sqlc_operations : Writer (World D) Entity → Writer (World D) Entity
    unfolding flush_hooks register_kinds
    register_sqlc_operations q = register_kinds kinds (set_flush_hooks flush_hooks q)

-- `Enqueue`: the item carries the kind of its type.
unfoldable pub enqueued : Entity → Item Entity
unfolding kind_of
enqueued e = record { kind = kind_of e; value = e }

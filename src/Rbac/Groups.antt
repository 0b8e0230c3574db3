-- ===== src/Rbac/Groups.antt =====
-- Creating, replacing and deleting a group definition: `createGroup`, `updateGroup` and
-- `deleteGroup` of src/services/rbac.service.ts.
pub mod Guards
pub mod SystemGroups
mod Tests
use jinbe.Prelude.{
  ℕ, String, Bool, true, false, ◌==◌, if◌then◌else◌, Option, none, some, List, [], ◌∷◌, ◌++◌,
  Result, ok, err, or_else, includes, is_some, lookup,
}
use jinbe.Redis.{Redis}
use jinbe.Kratos.{Kratos, remove_group_from_all_users}
use jinbe.Opa.{Opa}
use jinbe.Rbac.{
  RbacStore, GroupDefinition, ResourceMetadata, assert_super_admin, get_group, is_system_group,
}

-- the event that `invalidateBundle` publishes, or the audit event of a refused deletion
pub data Event : Type 0 where
  group_created group_updated group_deleted delete_denied : String → Event

module _ (redis : Redis) (kratos : Kratos) where
  pub record State : Type 0 where
    pub store : RbacStore redis
    pub directory : kratos.World
    pub events : List Event

  -- An error is the status code of the response.
  abbrev pub Outcome : Type 0
  Outcome = Result ℕ (Unit {0}) × State

  abbrev set_group : State → String → GroupDefinition → State
  set_group s name services = record s {
    store = record s.store { groups = redis.hset GroupDefinition s.store.groups name services };
  }

  -- the definition and its metadata
  abbrev delete_keys : State → String → State
  delete_keys s name = record s {
    store = record s.store {
      groups = redis.hdel GroupDefinition s.store.groups name;
      groups_meta = redis.hdel ResourceMetadata s.store.groups_meta name;
    };
  }

  abbrev publish : State → Event → State
  publish s e = record s { events = s.events ++ e ∷ [] }

  abbrev pub group_exists : State → String → Bool
  group_exists s name = is_some (get_group redis s.store name)

  -- `(services.global ?? []).includes('super_admin')`
  abbrev pub grants_super_admin : GroupDefinition → Bool
  grants_super_admin services = includes (or_else (lookup "global" services) []) "super_admin"

  -- goes on if no super_admin is needed, or if the actor is one
  abbrev guarded : Opa → Bool → Option String → State → State → Outcome
  guarded opa needed actor s after =
      if needed
      then elim (assert_super_admin opa actor) [
        | some status ↦ (err status, s)
        | none ↦ (ok tt, after)
      ]
      else (ok tt, after)

  module _ (opa : Opa) (actor : Option String) where
    unfoldable pub create_group : State → String → GroupDefinition → Outcome
    create_group s name services =
        if group_exists s name
        then (err 409, s)
        else guarded opa (grants_super_admin services) actor s
            (publish (set_group s name services) (group_created name))

    unfoldable pub update_group : State → String → GroupDefinition → Outcome
    update_group s name services =
        if group_exists s name
        then guarded opa (name == "super_admins") actor s
            (publish (set_group s name services) (group_updated name))
        else (err 404, s)

    -- an error of the walk over the users is logged and swallowed
    unfoldable pub delete_group : State → Option (List (String × List String)) → String → Outcome
    delete_group s cached name =
        if group_exists s name
        then (if is_system_group redis s.store name
            then (err 403, publish s (delete_denied name))
            else (let t = delete_keys s name in
                let (removed, directory) =
                  remove_group_from_all_users kratos t.directory cached name in
                (ok tt, publish (record t { directory = directory }) (group_deleted name))))
        else (err 404, s)

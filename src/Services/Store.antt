-- ===== src/Services/Store.antt =====
-- The state of the service operations, and the loops over the groups.
use jinbe.Prelude.{
  ℕ, String, Bool, false, if◌then◌else◌, none, some, List, [], ◌∷◌, ◌++◌, Result, or_else, includes,
  is_some, Entries, lookup, insert, erase,
}
use jinbe.Redis.{Redis}
use jinbe.Rbac.{RbacStore, GroupDefinition, FlatRolesMap, RouteRule, ResourceMetadata}
use jinbe.Gateway.{OathkeeperRule}
use jinbe.Services.{Event}

module _ (redis : Redis) where
  pub record State : Type 0 where
    pub store : RbacStore redis
    pub services : redis.Members
    pub rules : List OathkeeperRule
    pub org_services : redis.Hash (List String)
    pub events : List Event

  -- An error is the status code of the response.
  abbrev pub Outcome : Type 0
  Outcome = Result ℕ (Unit {0}) × State

  abbrev pub service_exists : State → String → Bool
  service_exists s name = includes (redis.smembers s.services) name

  abbrev pub publish : Event → State → State
  publish e s = record s { events = s.events ++ e ∷ [] }

  abbrev pub is_system_service : State → String → Bool
  is_system_service s name = elim (redis.hget ResourceMetadata s.store.services_meta name) [
    | none ↦ false
    | some m ↦ or_else m.system false
  ]

  abbrev pub Groups : Type 0
  Groups = redis.Hash GroupDefinition

  -- the loop of `createService` over DEFAULT_GROUP_SERVICE_ROLES, on a snapshot of the groups
  unfoldable pub bind_groups :
      String → Entries GroupDefinition → Entries (List String) → Groups → Groups
  bind_groups name snapshot [] h = h
  bind_groups name snapshot ((group, roles) ∷ defaults) h = elim (lookup group snapshot) [
    | none ↦ bind_groups name snapshot defaults h
    | some def ↦
        bind_groups name snapshot defaults
          (redis.hset GroupDefinition h group (insert name roles def))
  ]

  -- the loop of `deleteService` over all groups
  unfoldable pub unbind_groups : String → Entries GroupDefinition → Groups → Groups
  unbind_groups name [] h = h
  unbind_groups name ((group, def) ∷ groups) h =
      unbind_groups name groups (
        if is_some (lookup name def)
        then redis.hset GroupDefinition h group (erase name def)
        else h)

  abbrev pub set_roles : String → FlatRolesMap → State → State
  set_roles name roles s = record s {
    store = record s.store { roles = redis.hset FlatRolesMap s.store.roles name roles };
  }

  abbrev pub set_route_map : String → List RouteRule → State → State
  set_route_map name rules s = record s {
    store = record s.store { route_map = redis.hset (List RouteRule) s.store.route_map name rules };
  }

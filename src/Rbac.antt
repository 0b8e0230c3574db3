-- ===== src/Rbac.antt =====
-- src/services/redis-rbac.repository.ts: the RBAC configuration that jinbe keeps in Redis, and
-- the predicates on group power of src/services/rbac.service.ts.
pub mod SuperAdmin
pub mod Power
pub mod Groups
use jinbe.Prelude.{
  ℕ, String, Bool, true, false, not, ◌&&◌, ◌||◌, ◌==◌, if◌then◌else◌, Option, none, some, List, [],
  ◌∷◌, or_else, includes, any, is_empty, Entries, lookup,
}
use jinbe.Redis.{Redis}
use jinbe.Opa.{Opa, SimulateResult, simulate}

-- { service: roles[] }
abbrev pub GroupDefinition : Type 0
GroupDefinition = Entries (List String)

-- { roleName: permissions[] }
abbrev pub FlatRolesMap : Type 0
FlatRolesMap = Entries (List String)

pub record RouteRule : Type 0 where
  pub method : String
  pub path : String
  pub permission : Option String

pub record ResourceMetadata : Type 0 where
  pub system : Option Bool
  pub description : Option String

-- `(map[role] ?? []).includes('*')`
abbrev pub role_is_wildcard : FlatRolesMap → String → Bool
role_is_wildcard roles role = includes (or_else (lookup role roles) []) "*"

-- `roles.some(…)` against the roles map of one service, which may be missing
abbrev pub any_wildcard : Option FlatRolesMap → List String → Bool
any_wildcard none names = false
any_wildcard (some roles) names = any (role_is_wildcard roles) names

module _ (opa : Opa) where
  super_admin_flag : Option SimulateResult → Bool
  super_admin_flag none = false
  super_admin_flag (some r) = r.super_admin

  -- `requireSuperAdmin`: the status of the error that it throws, if it does
  unfoldable pub assert_super_admin : Option String → Option ℕ
  unfolding super_admin_flag
  assert_super_admin none = some 401
  assert_super_admin (some email) =
      if email == ""
      then some 401
      else if super_admin_flag (simulate opa email "jinbe" "POST" "/api/admin/rbac/groups")
      then none
      else some 403

module _ (redis : Redis) where
  -- One field for each key of the schema at the head of the repository; the keys
  -- rbac:roles:{service} and rbac:route_map:{service} are read as two maps over services.
  pub record RbacStore : Type 0 where
    pub groups : redis.Hash GroupDefinition
    pub groups_meta : redis.Hash ResourceMetadata
    pub services_meta : redis.Hash ResourceMetadata
    pub roles : redis.Hash FlatRolesMap
    pub route_map : redis.Hash (List RouteRule)

  abbrev pub get_group : RbacStore → String → Option GroupDefinition
  get_group s name = redis.hget GroupDefinition s.groups name

  abbrev pub get_roles : RbacStore → String → Option FlatRolesMap
  get_roles s service = redis.hget FlatRolesMap s.roles service

  abbrev pub get_group_metadata : RbacStore → String → Option ResourceMetadata
  get_group_metadata s name = redis.hget ResourceMetadata s.groups_meta name

  -- `meta?.system === true`
  abbrev is_system : Option ResourceMetadata → Bool
  is_system none = false
  is_system (some m) = or_else m.system false

  unfoldable pub is_system_group : RbacStore → String → Bool
  is_system_group s name = is_system (get_group_metadata s name)

  unfoldable pub def_grants_global_power : RbacStore → GroupDefinition → Bool
  def_grants_global_power s def =
      let global_roles = or_else (lookup "global" def) [] in
      if is_empty global_roles
      then false
      else if includes global_roles "super_admin"
      then true
      else any_wildcard (get_roles s "global") global_roles

  global_power_of : RbacStore → Option GroupDefinition → Bool
  global_power_of s none = false
  global_power_of s (some def) = def_grants_global_power s def

  unfoldable pub group_grants_global_power : RbacStore → String → Bool
  unfolding global_power_of
  group_grants_global_power s name = global_power_of s (get_group s name)

  -- the loop over the services that the group binds
  unfoldable pub any_service_wildcard : RbacStore → Entries (List String) → Bool
  any_service_wildcard s [] = false
  any_service_wildcard s ((svc, roles) ∷ def) =
      (not (svc == "global") && not (is_empty roles) && any_wildcard (get_roles s svc) roles)
      || any_service_wildcard s def

  admin_power_of : RbacStore → Option GroupDefinition → Bool
  admin_power_of s none = false
  admin_power_of s (some def) =
      if def_grants_global_power s def then true else any_service_wildcard s def

  unfoldable pub group_grants_admin_power : RbacStore → String → Bool
  unfolding admin_power_of
  group_grants_admin_power s name = admin_power_of s (get_group s name)

  confers_nothing : Option GroupDefinition → Bool
  confers_nothing none = true
  confers_nothing (some def) = not (any (λ (svc, roles). not (is_empty roles)) def)

  unfoldable pub is_empty_group : RbacStore → String → Bool
  unfolding confers_nothing
  is_empty_group s name = confers_nothing (get_group s name)

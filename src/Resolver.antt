-- ===== src/Resolver.antt =====
-- src/services/rbac-resolver.service.ts: from the groups of a user to the roles and permissions
-- in an application. A JavaScript `Set` is the list of its elements in the order of insertion.
pub mod Permissions
mod Tests
use jinbe.Prelude.{
  String, Bool, true, false, if◌then◌else◌, Option, none, some, List, [], ◌∷◌, ◌++◌, Result, ok,
  err, Entries, lookup, includes, or_else,
}
use jinbe.Redis.{Redis}
use jinbe.Kratos.{Kratos, get_user_groups}
use jinbe.Rbac.{GroupDefinition, FlatRolesMap, RbacStore, get_roles}

pub record ResolvedUserRbac : Type 0 where
  pub email : String
  pub groups : List String
  pub roles : List String
  pub permissions : List String

-- `set.add(x)`
abbrev pub add_to : List String → String → List String
add_to set x = if includes set x then set else set ++ (x ∷ [])

-- `xs.forEach(x => set.add(x))`
abbrev pub add_all : List String → List String → List String
add_all set [] = set
add_all set (x ∷ xs) = add_all (add_to set x) xs

-- `map?.[key]`, where nothing counts as no entries
abbrev pub entries_of : Option (Entries (List String)) → String → List String
entries_of none key = []
entries_of (some m) key = or_else (lookup key m) []

-- the loop of `resolveRoles`
unfoldable pub resolve_roles :
    Entries GroupDefinition → String → List String → List String → List String
resolve_roles defs app [] roles = roles
resolve_roles defs app (group ∷ groups) roles =
    let def = lookup group defs in
    resolve_roles defs app groups
      (add_all (add_all roles (entries_of def "global")) (entries_of def app))

-- the loop of `resolvePermissions`
unfoldable pub resolve_permissions :
    Option FlatRolesMap → Option FlatRolesMap → List String → List String → List String
resolve_permissions service_roles global_roles [] permissions = permissions
resolve_permissions service_roles global_roles (role ∷ roles) permissions =
    resolve_permissions service_roles global_roles roles
      (add_all (add_all permissions (entries_of global_roles role)) (entries_of service_roles role))

module _ (redis : Redis) (kratos : Kratos) (s : RbacStore redis) where
  -- any error of the look-up leaves the default group
  unfoldable pub groups_or_default : kratos.World → String → List String
  groups_or_default w email = elim (get_user_groups kratos w email) [
    | ok groups ↦ groups
    | err e ↦ "users" ∷ []
  ]

  unfoldable pub resolve_user_rbac : kratos.World → String → String → ResolvedUserRbac
  unfolding groups_or_default resolve_roles resolve_permissions
  resolve_user_rbac w email app =
      let groups = groups_or_default w email in
      let roles = resolve_roles (redis.hgetall GroupDefinition s.groups) app groups [] in
      record {
        email = email;
        groups = groups;
        roles = roles;
        permissions =
            resolve_permissions (get_roles redis s app) (get_roles redis s "global") roles [];
      }

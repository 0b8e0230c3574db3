-- ===== src/Access.antt =====
-- src/middleware/require-service-admin.ts and src/middleware/require-manageable-org.ts: the
-- guards of the routes below /organizations/:organizationId, in the order in which
-- src/routes/organization-user.routes.ts hooks them.
pub mod Tenancy
mod Tests
use jinbe.Prelude.{
  ℕ, String, Bool, true, false, ◌&&◌, ◌||◌, ◌==◌, if◌then◌else◌, Option, none, some, List, [], ◌∷◌,
  Result, ok, err, includes, is_empty, head?, or_else,
}
use jinbe.Redis.{Redis}
use jinbe.Opa.{Opa, UserRbacInfo, get_user_info, manageable_orgs}

-- the part of a request that the guards read: the address of the session, and what the guards
-- before have resolved
pub record RequestContext : Type 0 where
  pub email : Option String
  pub organization_id : String
  pub rbac_info : Option UserRbacInfo

-- The request goes on, or the reply has a status.
abbrev pub Outcome : Type 0
Outcome = Result ℕ RequestContext

-- `!email || email === 'unknown'`
abbrev pub identified : Option String → Option String
identified none = none
identified (some email) = if email == "" || email == "unknown" then none else some email

-- `organizationId` → the first service of the bundle in rbac:org_service_map
unfoldable pub get_service_for_org :
    (redis : Redis) → redis.Hash (List String) → String → Option String
get_service_for_org redis h org = elim (redis.hget (List String) h org) [
  | none ↦ none
  | some bundle ↦ head? bundle
]

-- DEV_BYPASS_AUTH
abbrev pub developer : String → UserRbacInfo
developer email = record {
  email = email;
  groups = "super_admins" ∷ "admins" ∷ [];
  roles = "super_admin" ∷ "admin" ∷ [];
  permissions = "*" ∷ [];
}

module _ (redis : Redis) (opa : Opa) (bypass : Bool) (services : redis.Hash (List String)) where
  with_permissions : RequestContext → Option UserRbacInfo → Outcome
  with_permissions r none = err 503
  with_permissions r (some info) =
      if is_empty info.permissions then err 403 else ok (record r { rbac_info = some info })

  unfoldable pub require_service_admin : RequestContext → Outcome
  unfolding with_permissions get_service_for_org
  require_service_admin r = elim (identified r.email) [
    | none ↦ err 401
    | some email ↦
        if bypass
        then ok (record r { rbac_info = some (developer email) })
        else with_permissions r (
            get_user_info opa email
              (or_else (get_service_for_org redis services r.organization_id) r.organization_id))
  ]

  org_gate : RequestContext → UserRbacInfo → Outcome
  org_gate r info = if includes info.permissions "*" then ok r else elim (identified r.email) [
    | none ↦ err 401
    | some email ↦ if includes (manageable_orgs opa email) r.organization_id then ok r else err 403
  ]

  unfoldable pub require_manageable_org : RequestContext → Outcome
  unfolding org_gate
  require_manageable_org r = elim r.rbac_info [ none ↦ err 500 | some info ↦ org_gate r info ]

  unfoldable pub require_service_permission : String → RequestContext → Outcome
  require_service_permission permission r = elim r.rbac_info [
    | none ↦ err 500
    | some info ↦
        if includes info.permissions "*" || includes info.permissions permission
        then ok r
        else err 403
  ]

  then_guard : Outcome → (RequestContext → Outcome) → Outcome
  then_guard (err status) g = err status
  then_guard (ok r) g = g r

  -- the hooks of the routes, and of the one that assigns groups
  unfoldable pub organization_route : RequestContext → Outcome
  unfolding then_guard require_service_admin require_manageable_org
  organization_route r = then_guard (require_service_admin r) require_manageable_org

  unfoldable pub assign_route : RequestContext → Outcome
  unfolding organization_route require_service_permission
  assign_route r =
      then_guard (organization_route r) (require_service_permission "users:assign_group")

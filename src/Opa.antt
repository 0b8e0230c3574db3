-- ===== src/Opa.antt =====
-- src/services/opa.service.ts. What OPA answers is a parameter: one function for each rule that
-- is queried, into the outcomes of the HTTP request. The policy itself is not in this repository.
use jinbe.Prelude.{String, Bool, false, Option, none, some, List, [], or_else}

-- `fetch` throws, the status is not 2xx, or a body with an optional `result`
pub data Response (A : Type 0) : Type 0 where
  failed : Response A
  not_ok : Response A
  body : Option A → Response A

pub record UserInfoBody : Type 0 where
  pub email : String
  pub groups : Option (List String)
  pub roles : Option (List String)
  pub permissions : Option (List String)

pub record SimulateBody : Type 0 where
  pub allow : Option Bool
  pub groups : Option (List String)
  pub roles : Option (List String)
  pub permissions : Option (List String)
  pub super_admin : Option Bool

pub record UserRbacInfo : Type 0 where
  pub email : String
  pub groups : List String
  pub roles : List String
  pub permissions : List String

pub record SimulateResult : Type 0 where
  pub allow : Bool
  pub groups : List String
  pub roles : List String
  pub permissions : List String
  pub super_admin : Bool

pub record CanGrantInput : Type 0 where
  pub email : String
  pub target_group : String
  pub target_org : String

pub record Opa : Type 0 where
  -- data.rbac.user_info on email and app
  pub user_info : String → String → Response UserInfoBody
  -- data.rbac.simulate on email, app, action and object
  pub simulate : String → String → String → String → Response SimulateBody
  -- data.rbac.delegation.can_grant
  pub can_grant : CanGrantInput → Response Bool
  -- data.rbac.delegation.manageable_orgs and assignable_groups; `none` is a result that is no array
  pub manageable_orgs : String → Response (List String)
  pub assignable_groups : String → Response (List String)

module _ (opa : Opa) where
  user_info_of : Response UserInfoBody → Option UserRbacInfo
  user_info_of (body (some r)) = some (record {
    email = r.email;
    groups = or_else r.groups [];
    roles = or_else r.roles [];
    permissions = or_else r.permissions [];
  })
  user_info_of _ = none

  unfoldable pub get_user_info : String → String → Option UserRbacInfo
  unfolding user_info_of
  get_user_info email app = user_info_of (opa.user_info email app)

  simulate_of : Response SimulateBody → Option SimulateResult
  simulate_of (body (some r)) = some (record {
    allow = or_else r.allow false;
    groups = or_else r.groups [];
    roles = or_else r.roles [];
    permissions = or_else r.permissions [];
    super_admin = or_else r.super_admin false;
  })
  simulate_of _ = none

  unfoldable pub simulate : String → String → String → String → Option SimulateResult
  unfolding simulate_of
  simulate email app action object = simulate_of (opa.simulate email app action object)

  granted : Response Bool → Bool
  granted (body (some b)) = b
  granted _ = false

  unfoldable pub can_grant : CanGrantInput → Bool
  unfolding granted
  can_grant input = granted (opa.can_grant input)

  delegation_set : Response (List String) → List String
  delegation_set (body (some s)) = s
  delegation_set _ = []

  unfoldable pub manageable_orgs : String → List String
  unfolding delegation_set
  manageable_orgs email = delegation_set (opa.manageable_orgs email)

  unfoldable pub assignable_groups : String → List String
  unfolding delegation_set
  assignable_groups email = delegation_set (opa.assignable_groups email)

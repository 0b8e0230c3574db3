-- ===== src/Middleware.antt =====
-- The hooks of the administration: src/middleware/identity-extractor.ts, src/middleware/require-auth.ts
-- and src/middleware/require-admin.ts, chained as src/server.ts and src/routes/rbac.routes.ts hook them.
-- Log lines and audit events are left out. Kratos and the API server of Kubernetes are parameters.
pub mod Credentials
pub mod Admission
mod Tests
use text.Mathlib.Text.{starts_with}
use jinbe.Prelude.{
  ℕ, ◌-◌, ◌*◌, String, Bool, true, false, not, ◌&&◌, ◌||◌, ◌==◌, if◌then◌else◌, leb, Option, none,
  some, List, [], ◌∷◌, Result, ok, err, or_else, any, append, truthy, TextOps,
}
use jinbe.Opa.{Opa, UserRbacInfo, SimulateResult, get_user_info, simulate}
use jinbe.Access.{identified, developer}
use jinbe.UserGroups.{GroupUpdateActor, Timestamp, at, step_up_denies}

pub record UserContext : Type 0 where
  pub email : String
  pub id : String
  pub name : String
  pub aal : Option String
  pub authenticated_at : Option Timestamp

pub record K8sPrincipal : Type 0 where
  pub email : String
  pub username : String
  pub uid : Option String

pub record ValidatedSession : Type 0 where
  pub email : String
  pub identity_id : String
  pub name : Option String
  pub aal : Option String
  pub authenticated_at : Option Timestamp

-- the configuration, and the services that look at a credential
pub record Environment : Type 0 where
  pub dev_bypass : Bool
  pub dev_user_email : Option String
  pub sa_auth_enabled : Bool
  pub app_name : String
  pub looks_like_service_account_token : String → Bool
  pub review_token : String → Option K8sPrincipal
  -- the session of a cookie, or why there is none
  pub validate_session : String → Result (Option String) ValidatedSession
  pub js : TextOps
  pub now : ℕ

-- a request as it comes in: its path, the token of its Authorization header and its session cookie
pub record Incoming : Type 0 where
  pub path : String
  pub bearer : Option String
  pub session_cookie : Option String

-- what the hooks add to the request
pub record Extracted : Type 0 where
  pub user_context : Option UserContext
  pub session_error : Option String

abbrev pub nobody : Option String → Extracted
nobody error = record { user_context = none; session_error = error }

-- a hook after another, where none has sent a reply
abbrev pub then_hook {ℓ} : {A : Type 0} {B : Type ℓ} → Result ℕ A → Result ℕ B → Result ℕ B
then_hook (err status) next = err status
then_hook (ok a) next = next

abbrev pub then_with {ℓ} : {A : Type 0} {B : Type ℓ} → Result ℕ A → (A → Result ℕ B) → Result ℕ B
then_with (err status) next = err status
then_with (ok a) next = next a

module _ (env : Environment) where
  abbrev pub dev_context : UserContext
  dev_context = record {
    email = or_else (truthy env.dev_user_email) "dev@localhost";
    id = "dev-user-id";
    name = "Dev User";
    aal = some "aal2";
    authenticated_at = some (at env.now);
  }

  abbrev pub machine_context : K8sPrincipal → UserContext
  machine_context p = record {
    email = p.email;
    id = append "k8s:" (or_else p.uid p.username);
    name = p.username;
    aal = none;
    authenticated_at = none;
  }

  abbrev pub session_context : ValidatedSession → UserContext
  session_context s = record {
    email = s.email;
    id = s.identity_id;
    name = or_else (truthy s.name) "unknown";
    aal = s.aal;
    authenticated_at = s.authenticated_at;
  }

  abbrev pub of_session : Option String → Result (Option String) ValidatedSession → Extracted
  of_session error (ok s) = record {
    user_context = some (session_context s);
    session_error = error;
  }
  of_session error (err e) = nobody (elim (truthy e) [ some e' ↦ some e' | none ↦ error ])

  -- the part for the cookie, after what the bearer token has left
  unfoldable pub extract_cookie : Option String → Option String → Extracted
  extract_cookie error cookie = elim (truthy cookie) [
    | none ↦ nobody error
    | some c ↦ of_session error (env.validate_session c)
  ]

  abbrev pub of_review : Option String → Option K8sPrincipal → Extracted
  of_review cookie (some p) = record {
    user_context = some (machine_context p);
    session_error = none;
  }
  of_review cookie none = extract_cookie (some "k8s_service_account_token_rejected") cookie

  unfoldable pub extract_identity : Incoming → Extracted
  extract_identity r =
      let from_cookie = extract_cookie none r.session_cookie in
      if env.dev_bypass
      then record { user_context = some dev_context; session_error = none }
      else elim (truthy r.bearer) [
        | none ↦ from_cookie
        | some token ↦
            if env.sa_auth_enabled && env.looks_like_service_account_token token
            then of_review r.session_cookie (env.review_token token)
            else from_cookie
      ]

  -- `isPublicRoute`
  abbrev pub public_routes : List String
  public_routes =
      "/api/health" ∷ "/api/whoami" ∷ "/api/opa/bundle" ∷ "/api/oathkeeper/rules"
      ∷ "/api/webhooks/kratos" ∷ "/docs" ∷ "/docs/" ∷ "/scim/v2" ∷ []

  abbrev pub public_patterns : List String
  public_patterns =
      "/api/admin/rbac/opal-datasource" ∷ "/api/admin/rbac/develop/opal-datasource"
      ∷ "/api/admin/rbac/bindings" ∷ "/api/admin/rbac/develop/bindings" ∷ "/api/admin/rbac/opal/"
      ∷ "/api/admin/rbac/develop/opal/" ∷ []

  unfoldable pub is_public_route : String → Bool
  is_public_route path =
      any (λ route. path == route || starts_with path (append route "/")) public_routes
      || any (λ pattern. starts_with path pattern) public_patterns

  -- the request goes on, with the context of its caller if there is one, or it is refused with a status
  abbrev pub admit_context : Option UserContext → Result ℕ (Option UserContext)
  admit_context none = err 401
  admit_context (some c) = if c.email == "unknown" then err 401 else ok (some c)

  unfoldable pub require_auth : String → Extracted → Result ℕ (Option UserContext)
  require_auth path e =
      if is_public_route path then ok e.user_context else admit_context e.user_context

  -- the address of the caller: `!email || email === 'unknown'` has none
  abbrev pub caller : Option UserContext → Option String
  caller none = none
  caller (some c) = identified (some c.email)

  -- `hasAnyGroup`
  unfoldable pub has_any_group : List String → List String → Bool
  has_any_group user_groups required =
      any (λ group. any (λ g. env.js.to_lower_case g == env.js.to_lower_case group) user_groups)
        required

  abbrev pub admin_groups : List String
  admin_groups = "admins" ∷ "super_admins" ∷ "admin" ∷ "superadmin" ∷ []

  abbrev pub super_admin_groups : List String
  super_admin_groups = "super_admins" ∷ "superadmin" ∷ "superadmins" ∷ []

  module _ (opa : Opa) where
    group_verdict : List String → Option UserRbacInfo → Result ℕ UserRbacInfo
    group_verdict required none = err 503
    group_verdict required (some info) =
        if has_any_group info.groups required then ok info else err 403

    -- `requireAdmin` and `requireSuperAdmin`, by the groups that they ask for
    unfoldable pub require_named_group : List String → Option UserContext → Result ℕ UserRbacInfo
    unfolding group_verdict
    require_named_group required c = elim (caller c) [
      | none ↦ err 401
      | some email ↦
          if env.dev_bypass
          then ok (developer email)
          else group_verdict required (get_user_info opa email env.app_name)
    ]

    -- `requireGroups(allowedGroups)`: without the bypass, and with the groups that are known already
    unfoldable pub require_groups :
        List String → Option UserRbacInfo → Option UserContext → Result ℕ UserRbacInfo
    unfolding group_verdict
    require_groups allowed known c = elim (caller c) [
      | none ↦ err 401
      | some email ↦ elim known [
        | some info ↦ group_verdict allowed (some info)
        | none ↦ group_verdict allowed (get_user_info opa email env.app_name)
      ]
    ]

    abbrev pub role_verdict : Option SimulateResult → Result ℕ (Unit {0})
    role_verdict none = err 403
    role_verdict (some r) = if r.super_admin then ok tt else err 403

    unfoldable pub require_super_admin_role : Option UserContext → Result ℕ (Unit {0})
    require_super_admin_role c = elim (caller c) [
      | none ↦ err 401
      | some email ↦
          if env.dev_bypass
          then ok tt
          else role_verdict (simulate opa email env.app_name "POST" "/api/admin/rbac/groups")
    ]

  abbrev pub actor_of : Option UserContext → GroupUpdateActor
  actor_of none = record { email = none; aal = none; authenticated_at = none }
  actor_of (some c) = record {
    email = some c.email;
    aal = c.aal;
    authenticated_at = c.authenticated_at;
  }

  unfoldable pub require_recent_mfa : Option UserContext → Result ℕ (Unit {0})
  require_recent_mfa c = if step_up_denies env.now (actor_of c) then err 422 else ok tt

  module _ (opa : Opa) where
    -- the routes that author services and access rules
    unfoldable pub authoring_route : Incoming → Result ℕ (Unit {0})
    authoring_route r =
        then_with (require_auth r.path (extract_identity r))
          λ c. then_hook (require_named_group opa admin_groups c) (require_super_admin_role opa c)

    -- the route that sets the administrators of an organisation
    unfoldable pub org_admins_route : Incoming → Result ℕ (Unit {0})
    org_admins_route r = then_with (require_auth r.path (extract_identity r)) λ c.
        then_hook (require_named_group opa admin_groups c)
          (then_hook (require_named_group opa super_admin_groups c) (require_recent_mfa c))

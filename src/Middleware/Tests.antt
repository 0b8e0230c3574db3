-- ===== src/Middleware/Tests.antt =====
-- Tests of the hooks, and their theorems at concrete requests.
use jinbe.Prelude.{
  String, ◌≡◌, ◌⊎◌, refl, true, false, ◌==◌, if◌then◌else◌, Option, none, some, [], ◌∷◌, ok, err,
}
use jinbe.Opa.{Opa, body, get_user_info, simulate}
use jinbe.UserGroups.{at, step_up_denies}
use jinbe.UserGroups.Factors.{IsSteppedUp}
use jinbe.Middleware.{
  Environment, Incoming, UserContext, ValidatedSession, extract_identity, extract_cookie,
  require_auth, is_public_route, has_any_group, require_named_group, require_super_admin_role,
  require_recent_mfa, actor_of, admin_groups, super_admin_groups, authoring_route, org_admins_route,
}
use jinbe.Middleware.Admission.{
  IsInGroup, HasRole, authoring_route-HasRole, org_admins_route-IsSteppedUp,
}
use jinbe.Middleware.Credentials.{OfMachine, OfSession}

-- everybody is in super_admins, and root@x has the role
abbrev opa : Opa
opa = record {
  user_info = λ email app. body (
      some (record {
        email = email;
        groups = some ("Super_Admins" ∷ []);
        roles = none;
        permissions = none;
      }));
  simulate = λ email app action object. body (
      some (record {
        allow = none;
        groups = none;
        roles = none;
        permissions = none;
        super_admin = some (email == "root@x");
      }));
  can_grant = λ input. body none;
  manageable_orgs = λ email. body none;
  assignable_groups = λ email. body none;
}

abbrev session : String → ValidatedSession
session email = record {
  email = email;
  identity_id = "1";
  name = none;
  aal = some "aal2";
  authenticated_at = some (at 1000000);
}

abbrev env : Environment
env = record {
  dev_bypass = false;
  dev_user_email = none;
  sa_auth_enabled = true;
  app_name = "jinbe";
  looks_like_service_account_token = λ token. token == "sa";
  review_token = λ token. some (record { email = "sa@x"; username = "sa"; uid = none });
  validate_session =
      λ cookie. if cookie == "stale" then err (some "expired") else ok (session cookie);
  js = record {
    trim = λ s. s;
    to_lower_case = λ s. if s == "Super_Admins" then "super_admins" else s;
  };
  now = 1000500;
}

abbrev request : Option String → Option String → Incoming
request bearer cookie = record {
  path = "/api/admin/rbac/services";
  bearer = bearer;
  session_cookie = cookie;
}

abbrev root_request : Incoming
root_request = request (some "other") (some "root@x")

root_passes : authoring_route env opa root_request ≡ ok tt
unfolding authoring_route extract_identity extract_cookie require_auth is_public_route has_any_group
    require_named_group require_super_admin_role get_user_info simulate
root_passes = refl

powerless : authoring_route env opa (request none (some "ann@x")) ≡ err 403
unfolding authoring_route extract_identity extract_cookie require_auth is_public_route has_any_group
    require_named_group require_super_admin_role get_user_info simulate
powerless = refl

stale : authoring_route env opa (request none (some "stale")) ≡ err 401
unfolding authoring_route extract_identity extract_cookie require_auth is_public_route
stale = refl

root_sets_admins : org_admins_route env opa root_request ≡ ok tt
unfolding org_admins_route extract_identity extract_cookie require_auth is_public_route
    has_any_group require_named_group require_recent_mfa step_up_denies get_user_info
root_sets_admins = refl

machine_is_refused : org_admins_route env opa (request (some "sa") none) ≡ err 422
unfolding org_admins_route extract_identity extract_cookie require_auth is_public_route
    has_any_group require_named_group require_recent_mfa step_up_denies get_user_info
machine_is_refused = refl

authoring_route-HasRole_example :
    (u : UserContext) × (OfMachine env root_request u ⊎ OfSession env root_request u)
    × IsInGroup env opa refl (admin_groups env) u.email
    × HasRole env opa refl u.email
authoring_route-HasRole_example = authoring_route-HasRole env opa refl root_request root_passes

org_admins_route-IsSteppedUp_example :
    (u : UserContext) × OfSession env root_request u
    × IsInGroup env opa refl (super_admin_groups env) u.email
    × IsSteppedUp env.now (actor_of env (some u))
org_admins_route-IsSteppedUp_example =
    org_admins_route-IsSteppedUp env opa refl root_request root_sets_admins

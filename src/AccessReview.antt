-- ===== src/AccessReview.antt =====
-- src/services/access-review.service.ts: who can do anything, and how. `classify` is the pass over the
-- group definitions, `review_identity` the body of the loop over the directory. What the audit trail and
-- the credential pass say of an address are arguments.
pub mod Scores
pub mod Identities
pub mod Admins
pub mod Tiers
mod Tests
use jinbe.Prelude.{
  ℕ, zero, suc, ◌+◌, ◌*◌, ◌-◌, String, Bool, true, false, not, ◌&&◌, ◌||◌, ◌==◌, if◌then◌else◌, ltb,
  leb, Option, none, some, List, [], ◌∷◌, ◌++◌, map, or_else, includes, any, filter, is_empty,
  length, append, Entries, lookup, add_element,
}
use jinbe.Redis.{Redis}
use jinbe.Rbac.{RbacStore, GroupDefinition, FlatRolesMap, get_roles, role_is_wildcard}

pub record GrantPath : Type 0 where
  pub group : String
  pub service : Option String
  pub role : Option String
  pub summary : String

pub record GroupPower : Type 0 where
  pub global_power : Bool
  pub wildcard_services : List String
  pub services : List String
  pub paths : List GrantPath

abbrev pub no_power : GroupPower
no_power = record { global_power = false; wildcard_services = []; services = []; paths = [] }

abbrev pub grant_path : String → String → String → String → GrantPath
grant_path name svc role suffix = record {
  group = name;
  service = some svc;
  role = some role;
  summary = append name (append " → " (append svc (append ":" (append role suffix))));
}

unfoldable pub classify_role : String → String → Bool → String → GroupPower → GroupPower
classify_role name svc is_wild role gp =
    if svc == "global"
    then (if role == "super_admin" || is_wild
        then record gp {
          global_power = true;
          paths = gp.paths ++ grant_path name "global" role " → *" ∷ [];
        }
        else record gp { paths = gp.paths ++ grant_path name "global" role "" ∷ [] })
    else (if is_wild
        then record gp {
          services = add_element svc gp.services;
          wildcard_services = add_element svc gp.wildcard_services;
          paths = gp.paths ++ grant_path name svc role " → *" ∷ [];
        }
        else record gp {
          services = add_element svc gp.services;
          paths = gp.paths ++ grant_path name svc role "" ∷ [];
        })

unfoldable pub classify_roles :
    String → String → FlatRolesMap → List String → GroupPower → GroupPower
classify_roles name svc m [] gp = gp
classify_roles name svc m (role ∷ roles) gp =
    classify_roles name svc m roles (classify_role name svc (role_is_wildcard m role) role gp)

module _ (redis : Redis) where
  -- The roles of every service that a group binds have been read.
  unfoldable pub classify : RbacStore redis → String → GroupDefinition → GroupPower → GroupPower
  classify s name [] gp = gp
  classify s name ((svc, roles) ∷ def) gp =
      classify s name def (classify_roles name svc (or_else (get_roles redis s svc) []) roles gp)

  -- `groupPower`, at a group that may be undefined
  abbrev pub classified : RbacStore redis → String → Option GroupDefinition → Option GroupPower
  classified s name none = none
  classified s name (some def) = some (classify s name def no_power)

-- ===== src/Services.antt =====
-- Services and access rules of src/services/rbac.service.ts, over the keys that
-- src/services/redis-rbac.repository.ts keeps for them. The locks around the groups and the rules make
-- each call one step.
pub mod Store
pub mod Operations
pub mod Runs
pub mod Kept
pub mod Enabled
pub mod Complete
pub mod Deletion
pub mod Posture
pub mod Reads
mod Tests
use jinbe.Prelude.{
  ℕ, String, Bool, true, false, not, ◌&&◌, ◌||◌, ◌==◌, if◌then◌else◌, Option, none, some, List, [],
  ◌∷◌, ◌++◌, Result, ok, err, or_else, includes, any, all, filter, is_empty, is_some, truthy,
  append, Entries, lookup, insert, erase, find?, Exec, String,
}
use jinbe.Redis.{Redis}
use jinbe.Rbac.{
  RbacStore, GroupDefinition, FlatRolesMap, RouteRule, ResourceMetadata, get_group, get_roles,
}
use jinbe.Gateway.{
  OathkeeperRule, Handler, Upstream, Match, Config, Env, SignInMethod, cookie, plain,
  handlers_enabled, build_sign_in_authenticators, build_remote_json_config,
  backfill_remote_json_config,
}

-- what `invalidateBundle` publishes, or the audit event of a refused deletion
pub data Event : Type 0 where
  service_created service_deleted service_config_updated service_routes_updated roles_updated :
      String → Event
  access_rule_created access_rule_updated access_rule_deleted : String → Event
  org_mapping_set org_mapping_deleted : String → Event
  service_delete_denied : String → Event

pub record CreateServiceOptions : Type 0 where
  pub name : String
  pub upstream_url : Option String
  pub match_url : Option String
  pub match_methods : Option (List String)
  pub strip_path : Option String
  pub sign_in : Option (List SignInMethod)

-- `strip_path`: absent, null, or a text
pub record UpdateServiceOptions : Type 0 where
  pub upstream_url : Option String
  pub match_url : Option String
  pub match_methods : Option (List String)
  pub strip_path : Option (Option String)
  pub sign_in : Option (List SignInMethod)

-- `defaultServiceRoles`
abbrev pub default_service_roles : String → FlatRolesMap
default_service_roles name =
    let p = λ (a : String). append name (append ":" a) in
    ("admin", "*" ∷ [])
    ∷ ("operator", p "list" ∷ p "read" ∷ p "create" ∷ p "update" ∷ p "delete" ∷ p "execute" ∷ [])
    ∷ ("editor", p "list" ∷ p "read" ∷ p "create" ∷ p "update" ∷ [])
    ∷ ("viewer", p "list" ∷ p "read" ∷ [])
    ∷ []

abbrev pub default_group_service_roles : Entries (List String)
default_group_service_roles =
    ("super_admins", "admin" ∷ [])
    ∷ ("admins", "admin" ∷ [])
    ∷ ("infra", "operator" ∷ [])
    ∷ ("devs", "editor" ∷ [])
    ∷ ("viewers", "viewer" ∷ [])
    ∷ []

abbrev pub health_id : String → String
health_id name = append name "-health"

-- `url.replace(/\/?$/, '/')`
abbrev pub with_slash : String → String
with_slash String.[] = "/"
with_slash (String.◌∷◌ c s) =
    let rest = with_slash s in if s == "" && String.◌∷◌ c s == "/" then "/" else String.◌∷◌ c rest

module _ (env : Env) where
  abbrev pub upstream_of : CreateServiceOptions → String
  upstream_of o = or_else (truthy o.upstream_url) (
      append "http://"
        (append o.name (append "." (append env.service_namespace (append ":" env.service_port)))))

  abbrev pub public_path : String → String → String
  public_path name rest =
      append "https://" (append env.service_domain (append "/api/" (append name rest)))

  -- `mainRule`, with the chain of its authenticators
  abbrev pub main_rule : CreateServiceOptions → List SignInMethod → List Handler → OathkeeperRule
  main_rule o sign_in chain =
      let is_public = is_empty sign_in in
      record {
        id = o.name;
        upstream = record {
          url = upstream_of o;
          preserve_host = none;
          strip_path = truthy o.strip_path;
        };
        pattern = record {
          url = or_else (truthy o.match_url) (public_path o.name "/<**>");
          methods = or_else o.match_methods ("GET" ∷ "POST" ∷ "PUT" ∷ "DELETE" ∷ "OPTIONS" ∷ []);
        };
        authenticators = chain;
        authorizer = if is_public then plain "allow" else record {
          handler = "remote_json";
          config = some (build_remote_json_config env o.name);
        };
        mutators = plain (if is_public then "noop" else "header") ∷ [];
        errors = none;
        other = [];
      }

  abbrev pub health_rule : CreateServiceOptions → OathkeeperRule
  health_rule o = record {
    id = health_id o.name;
    upstream = record {
      url = append (with_slash (upstream_of o)) "health";
      preserve_host = none;
      strip_path = none;
    };
    pattern = record { url = public_path o.name "/health"; methods = "GET" ∷ "OPTIONS" ∷ [] };
    authenticators = plain "noop" ∷ [];
    authorizer = plain "allow";
    mutators = plain "noop" ∷ [];
    errors = none;
    other = [];
  }

-- `rules.some(r => r.id === id)`
abbrev pub has_rule : String → List OathkeeperRule → Bool
has_rule id rules = any (λ (r : OathkeeperRule). r.id == id) rules

-- `addAccessRule`: none is the error that the rule exists
unfoldable pub add_access_rule : List OathkeeperRule → OathkeeperRule → Option (List OathkeeperRule)
add_access_rule rules rule = if has_rule rule.id rules then none else some (rules ++ rule ∷ [])

-- the first rule of the id is replaced
abbrev pub replace_rule : String → OathkeeperRule → List OathkeeperRule → List OathkeeperRule
replace_rule id rule [] = []
replace_rule id rule (r ∷ rules) =
    let rest = replace_rule id rule rules in if r.id == id then rule ∷ rules else r ∷ rest

unfoldable pub update_access_rule :
    String → OathkeeperRule → List OathkeeperRule → Option (List OathkeeperRule)
update_access_rule id rule rules =
    if has_rule id rules then some (replace_rule id rule rules) else none

abbrev pub without_rule : String → List OathkeeperRule → List OathkeeperRule
without_rule id rules = filter (λ (r : OathkeeperRule). not (r.id == id)) rules

-- try { addAccessRule } catch {}
abbrev pub add_if_absent : List OathkeeperRule → OathkeeperRule → List OathkeeperRule
add_if_absent rules rule = or_else (add_access_rule rules rule) rules

-- ===== src/Services/Operations.antt =====
-- The operations on services, on access rules and on the services of an organisation.
use jinbe.Prelude.{
  ℕ, String, Bool, not, ◌==◌, if◌then◌else◌, Option, none, some, List, [], ◌∷◌, ◌++◌, Result, ok,
  err, or_else, any, all, filter, is_empty, is_some, truthy, append, find?,
}
use jinbe.Redis.{Redis}
use jinbe.Rbac.{GroupDefinition, FlatRolesMap, RouteRule, ResourceMetadata}
use jinbe.Gateway.{
  OathkeeperRule, Handler, Env, SignInMethod, cookie, plain, handlers_enabled,
  build_sign_in_authenticators, build_remote_json_config, backfill_remote_json_config,
}
use jinbe.Services.{
  service_created, service_deleted, service_config_updated, service_routes_updated, roles_updated,
  access_rule_created, access_rule_updated, access_rule_deleted, org_mapping_set,
  org_mapping_deleted, service_delete_denied, CreateServiceOptions, UpdateServiceOptions,
  default_service_roles, default_group_service_roles, health_id, main_rule, health_rule, has_rule,
  add_access_rule, replace_rule, update_access_rule, without_rule, add_if_absent,
}
use jinbe.Services.Store.{
  State, Outcome, service_exists, publish, is_system_service, bind_groups, unbind_groups, set_roles,
  set_route_map,
}

-- the rule that `updateServiceConfig` writes, less its sign-in chain
abbrev pub with_options : UpdateServiceOptions → OathkeeperRule → OathkeeperRule
with_options o existing = record existing {
  upstream = record existing.upstream {
    url = or_else o.upstream_url existing.upstream.url;
    strip_path = or_else o.strip_path existing.upstream.strip_path;
  };
  pattern = record {
    url = or_else o.match_url existing.pattern.url;
    methods = or_else o.match_methods existing.pattern.methods;
  };
}

abbrev pub is_header : Handler → Bool
is_header m = m.handler == "header"

-- `[...new Set(names)]`: the first of equals stands
abbrev pub unique_names : List String → List String
unique_names [] = []
unique_names (x ∷ xs) = let rest = unique_names xs in x ∷ filter (λ y. not (y == x)) rest

module _ (env : Env) where
  -- with the sign-in chain that is asked for
  unfoldable pub with_sign_in :
      String → Option (List SignInMethod) → OathkeeperRule → Result ℕ OathkeeperRule
  with_sign_in name none rule = ok rule
  with_sign_in name (some []) rule = ok (record rule {
    authenticators = plain "noop" ∷ [];
    authorizer = plain "allow";
    mutators = plain "noop" ∷ [];
  })
  with_sign_in name (some (m ∷ ms)) rule = elim (build_sign_in_authenticators env (m ∷ ms)) [
    | err status ↦ err status
    | ok chain ↦ ok (record rule {
      authenticators = chain;
      authorizer =
          if rule.authorizer.handler == "allow"
          then record { handler = "remote_json"; config = some (build_remote_json_config env name) }
          else rule.authorizer;
      mutators = if any is_header rule.mutators then rule.mutators else plain "header" ∷ [];
    })
  ]

  module _ (redis : Redis) where
    abbrev with_rules : List OathkeeperRule → State redis → State redis
    with_rules rules s = record s { rules = rules }

    -- everything that `createService` writes, once the main rule is built
    unfoldable pub write_service : CreateServiceOptions → OathkeeperRule → State redis → State redis
    write_service o main s =
        let health = add_if_absent (add_if_absent s.rules main) (health_rule env o) in
        let rules = if is_some (truthy o.match_url) then add_if_absent s.rules main else health in
        let t =
          set_route_map redis o.name
            (record {
              method = "GET";
              path = append "/api/" (append o.name "/health");
              permission = none;
            }
              ∷ [])
            (set_roles redis o.name (default_service_roles o.name)
              (record s { services = redis.sadd s.services o.name })) in
        let snapshot = redis.hgetall GroupDefinition s.store.groups in
        record t {
          rules = rules;
          store = record t.store {
            groups = bind_groups redis o.name snapshot default_group_service_roles t.store.groups;
          };
          events = s.events ++ service_created o.name ∷ [];
        }

    unfoldable pub create_service : CreateServiceOptions → State redis → Outcome redis
    create_service o s =
        let sign_in = or_else o.sign_in (cookie ∷ []) in
        let created : Outcome redis = elim (build_sign_in_authenticators env sign_in) [
          | err status ↦ (err status, s)
          | ok chain ↦ (ok tt, write_service o (main_rule env o sign_in chain) s)
        ] in
        if service_exists redis s o.name then (err 409, s) else created

    unfoldable pub erase_service : String → State redis → State redis
    erase_service name s = record s {
      services = redis.srem s.services name;
      rules = without_rule (health_id name) (without_rule name s.rules);
      store = record s.store {
        groups =
            unbind_groups redis name (redis.hgetall GroupDefinition s.store.groups) s.store.groups;
        roles = redis.hdel FlatRolesMap s.store.roles name;
        route_map = redis.hdel (List RouteRule) s.store.route_map name;
        services_meta = redis.hdel ResourceMetadata s.store.services_meta name;
      };
    }

    unfoldable pub delete_service : String → State redis → Outcome redis
    delete_service name s =
        if not (service_exists redis s name)
        then (err 404, s)
        else if is_system_service redis s name
        then (err 403, publish redis (service_delete_denied name) s)
        else (ok tt, publish redis (service_deleted name) (erase_service name s))

    unfoldable pub update_service_config :
        String → UpdateServiceOptions → State redis → Outcome redis
    update_service_config name o s =
        let found : Outcome redis = elim (find? (λ (r : OathkeeperRule). r.id == name) s.rules) [
          | none ↦ (err 404, s)
          | some existing ↦ elim (with_sign_in name o.sign_in (with_options o existing)) [
            | err status ↦ (err status, s)
            | ok updated ↦ (
              ok tt,
              publish redis (service_config_updated name)
                  (with_rules (replace_rule name updated s.rules) s),
            )
          ]
        ] in
        if service_exists redis s name then found else (err 404, s)

    unfoldable pub update_service_routes : String → List RouteRule → State redis → Outcome redis
    update_service_routes name rules s =
        if service_exists redis s name
        then (ok tt, publish redis (service_routes_updated name) (set_route_map redis name rules s))
        else (err 404, s)

    unfoldable pub update_service_roles : String → FlatRolesMap → State redis → Outcome redis
    update_service_roles name roles s =
        if service_exists redis s name
        then (ok tt, publish redis (roles_updated name) (set_roles redis name roles s))
        else (err 404, s)

    unfoldable pub create_access_rule : OathkeeperRule → State redis → Outcome redis
    create_access_rule rule s =
        let complete = backfill_remote_json_config env (redis.smembers s.services) rule in
        let added : Outcome redis = elim (add_access_rule s.rules complete) [
          | none ↦ (err 409, s)
          | some rules ↦ (ok tt, publish redis (access_rule_created rule.id) (with_rules rules s))
        ] in
        if handlers_enabled env rule then added else (err 400, s)

    -- The rule is stored under the id of the path.
    unfoldable pub replace_access_rule : String → OathkeeperRule → State redis → Outcome redis
    replace_access_rule id rule s =
        let complete =
          backfill_remote_json_config env (redis.smembers s.services) (record rule { id = id }) in
        let updated : Outcome redis = elim (update_access_rule id complete s.rules) [
          | none ↦ (err 404, s)
          | some rules ↦ (ok tt, publish redis (access_rule_updated id) (with_rules rules s))
        ] in
        if handlers_enabled env rule then updated else (err 400, s)

    unfoldable pub delete_access_rule : String → State redis → Outcome redis
    delete_access_rule id s =
        if has_rule id s.rules
        then (
          ok tt,
          publish redis (access_rule_deleted id) (with_rules (without_rule id s.rules) s),
        )
        else (err 404, s)

    -- every service of the bundle must exist
    unfoldable pub set_org_service_mapping : String → List String → State redis → Outcome redis
    set_org_service_mapping organization_id services s =
        let bundle = unique_names (filter (λ x. not (x == "")) services) in
        let written =
          if is_empty bundle
          then redis.hdel (List String) s.org_services organization_id
          else redis.hset (List String) s.org_services organization_id bundle in
        if all (service_exists redis s) services
        then (
          ok tt,
          publish redis (org_mapping_set organization_id) (record s { org_services = written }),
        )
        else (err 400, s)

    unfoldable pub delete_org_service_mapping : String → State redis → Outcome redis
    delete_org_service_mapping organization_id s =
        if is_some (redis.hget (List String) s.org_services organization_id)
        then (
          ok tt,
          publish redis (org_mapping_deleted organization_id)
              (record s { org_services = redis.hdel (List String) s.org_services organization_id }),
        )
        else (err 404, s)

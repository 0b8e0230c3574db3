-- ===== src/Services/Runs.antt =====
-- Requests on services and rules one after another, and what all stored rules keep.
use jinbe.Prelude.{String, List, [], ◌∷◌}
use jinbe.Redis.{Redis}
use jinbe.Rbac.{FlatRolesMap, RouteRule}
use jinbe.Gateway.{OathkeeperRule, Env}
use jinbe.Services.{CreateServiceOptions, UpdateServiceOptions}
use jinbe.Services.Store.{State, Outcome}
use jinbe.Services.Operations.{
  create_service, delete_service, update_service_config, update_service_routes,
  update_service_roles, create_access_rule, replace_access_rule, delete_access_rule,
  set_org_service_mapping, delete_org_service_mapping,
}

-- The requests of src/services/rbac.service.ts that change services, access rules and the services of
-- organisations. The import of a bundle writes rules too, and is not among them.
pub data Request : Type 0 where
  create : CreateServiceOptions → Request
  delete : String → Request
  configure : String → UpdateServiceOptions → Request
  set_routes : String → List RouteRule → Request
  set_roles : String → FlatRolesMap → Request
  create_rule : OathkeeperRule → Request
  replace_rule_of : String → OathkeeperRule → Request
  delete_rule : String → Request
  map_org : String → List String → Request
  unmap_org : String → Request

module _ (env : Env) (redis : Redis) where
  abbrev pub perform : Request → State redis → Outcome redis
  perform (create o) s = create_service env redis o s
  perform (delete name) s = delete_service env redis name s
  perform (configure name o) s = update_service_config env redis name o s
  perform (set_routes name rules) s = update_service_routes env redis name rules s
  perform (set_roles name roles) s = update_service_roles env redis name roles s
  perform (create_rule rule) s = create_access_rule env redis rule s
  perform (replace_rule_of id rule) s = replace_access_rule env redis id rule s
  perform (delete_rule id) s = delete_access_rule env redis id s
  perform (map_org organization_id services) s =
      set_org_service_mapping env redis organization_id services s
  perform (unmap_org organization_id) s = delete_org_service_mapping env redis organization_id s

  unfoldable pub run : List Request → State redis → State redis
  run [] s = s
  run (r ∷ rs) s = run rs (perform r s).1

-- ===== src/Services/Tests.antt =====
-- Tests of the service operations, and their theorems at concrete requests.
use jinbe.Prelude.{find?, String, ◌≡◌, ◌≢◌, refl, true, none, some, List, [], ◌∷◌, err, All}
use jinbe.Samples.{redis, store}
use jinbe.Gateway.{
  OathkeeperRule, plain, Env, cookie, bearer, derive_service_for_rule, handlers_enabled,
  build_sign_in_authenticators,
}
use jinbe.Services.{UpdateServiceOptions, CreateServiceOptions}
use jinbe.Services.Store.{State}
use jinbe.Services.Operations.{update_service_config, with_sign_in, create_service, delete_service}
use jinbe.Services.Runs.{Request, create, configure, run}
use jinbe.Services.Enabled.{EnablesDefaults, run-enabled}
use jinbe.Services.Complete.{IsComplete, run-IsComplete}
use jinbe.Services.Posture.{HasPosture, has_id, update_service_config-HasPosture}
use jinbe.Kratos.Directory.{Binding}
use jinbe.Services.Deletion.{IsGone, IsUntouched, delete_service-IsGone}

abbrev env : Env
env = record {
  enabled_authenticators = "cookie_session" ∷ "noop" ∷ [];
  enabled_authorizers = "allow" ∷ "remote_json" ∷ [];
  enabled_mutators = "noop" ∷ "header" ∷ [];
  enabled_error_handlers = "redirect" ∷ "json" ∷ [];
  opa_authz_remote = "http://opa";
  service_namespace = "apps";
  service_domain = "example.org";
  service_port = "80";
}

abbrev nothing : State redis
nothing = record { store = store; services = []; rules = []; org_services = []; events = [] }

abbrev billing : CreateServiceOptions
billing = record {
  name = "billing";
  upstream_url = none;
  match_url = none;
  match_methods = none;
  strip_path = none;
  sign_in = none;
}

order_service :
    derive_service_for_rule "order-service-health" ("order" ∷ "order-service" ∷ [])
    ≡ "order-service"
unfolding derive_service_for_rule
order_service = refl

abbrev defaults : EnablesDefaults env
defaults = record {
  noop_authenticator = refl;
  allow_authorizer = refl;
  remote_authorizer = refl;
  noop_mutator = refl;
  header_mutator = refl;
}

abbrev requests : List Request
requests =
    create billing
    ∷ configure "billing" (record {
      upstream_url = none;
      match_url = none;
      match_methods = none;
      strip_path = none;
      sign_in = some (cookie ∷ []);
    })
    ∷ []

run-enabled_example :
    All (λ r. handlers_enabled env r ≡ true) (run env redis requests nothing).rules
run-enabled_example = run-enabled env redis defaults requests nothing tt

run-IsComplete_example : All IsComplete (run env redis requests nothing).rules
run-IsComplete_example = run-IsComplete env redis refl requests nothing tt

no_bearer :
    (create_service env redis (record billing { sign_in = some (bearer ∷ []) }) nothing).0 ≡ err 400
unfolding create_service build_sign_in_authenticators
no_bearer = refl

-- `billing` is bound by two groups of the sample
abbrev registered : State redis
registered = record nothing {
  services = "billing" ∷ [];
  org_services = ("org-1", "billing" ∷ []) ∷ [];
}

delete_service-IsGone_example :
    IsGone redis "billing" (delete_service env redis "billing" registered).1
    × ((other : String)
        → other ≢ "billing"
        → IsUntouched redis other registered (delete_service env redis "billing" registered).1)
    × ((id : String)
        → id ≢ "billing"
        → id ≢ "billing-health"
        → find? (has_id id) (delete_service env redis "billing" registered).1.rules
          ≡ find? (has_id id) registered.rules)
    × ((delete_service env redis "billing" registered).1.org_services ≡ registered.org_services)
unfolding delete_service
delete_service-IsGone_example =
    delete_service-IsGone env redis "billing" registered
      (delete_service env redis "billing" registered).1 refl

abbrev methods : UpdateServiceOptions
methods = record {
  upstream_url = none;
  match_url = none;
  match_methods = none;
  strip_path = none;
  sign_in = some (cookie ∷ []);
}

-- a public service, and a rule of it
abbrev public_rule : OathkeeperRule
public_rule = record {
  id = "billing";
  upstream = record { url = "http://billing"; preserve_host = none; strip_path = none };
  pattern = record { url = "https://billing"; methods = "GET" ∷ [] };
  authenticators = plain "noop" ∷ [];
  authorizer = plain "allow";
  mutators = plain "noop" ∷ [];
  errors = none;
  other = [];
}

abbrev public_service : State redis
public_service = record nothing { services = "billing" ∷ []; rules = public_rule ∷ [] }

update_service_config-HasPosture_example :
    (before : OathkeeperRule) × (r : OathkeeperRule) × (find?
        (has_id "billing")
        public_service.rules
      ≡ some before)
    × (find?
          (has_id "billing")
          (update_service_config env redis "billing" methods public_service).1.rules
        ≡ some r)
    × HasPosture (some (cookie ∷ [])) before r
unfolding update_service_config with_sign_in build_sign_in_authenticators
update_service_config-HasPosture_example =
    update_service_config-HasPosture env redis "billing" methods public_service
      (update_service_config env redis "billing" methods public_service).1 refl

-- the bindings of a user of the directory

abbrev member : Binding
member = record {
  groups = "users" ∷ [];
  organizations = "acme" ∷ [];
  primary_organization = some "initech";
  active = true;
  id = "id-bob";
  name = none;
}

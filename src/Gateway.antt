-- ===== src/Gateway.antt =====
-- The access rules that Oathkeeper enforces: their shape (src/services/redis-rbac.repository.ts), the
-- handlers that the gateway has enabled (src/services/oathkeeper-handlers.ts), and the rules that
-- src/services/rbac.service.ts builds for a service.
pub mod Derived
use Prim.Native.Char.{code}
use text.Mathlib.Text.{starts_with}
use jinbe.Prelude.{
  ℕ, String, Bool, true, false, not, ◌&&◌, ◌||◌, ◌==◌, if◌then◌else◌, Option, none, some, List, [],
  ◌∷◌, ◌++◌, map, Result, ok, err, or_else, includes, any, all, filter, is_empty, is_some, is_blank,
  text_length, same_number, append, Entries, ltb,
}

-- `config`: the two fields that the service reads, and the others
pub record Config : Type 0 where
  pub remote : Option String
  pub payload : Option String
  pub rest : Entries String

pub record Handler : Type 0 where
  pub handler : String
  pub config : Option Config

pub record Upstream : Type 0 where
  pub url : String
  pub preserve_host : Option Bool
  pub strip_path : Option String

pub record Match : Type 0 where
  pub url : String
  pub methods : List String

-- `other` holds the fields that jinbe carries along and does not read
pub record OathkeeperRule : Type 0 where
  pub id : String
  pub upstream : Upstream
  pub pattern : Match
  pub authenticators : List Handler
  pub authorizer : Handler
  pub mutators : List Handler
  pub errors : Option (List Handler)
  pub other : Entries String

-- the environment variables: what the gateway has enabled, and where OPA and the services are
pub record Env : Type 0 where
  pub enabled_authenticators : List String
  pub enabled_authorizers : List String
  pub enabled_mutators : List String
  pub enabled_error_handlers : List String
  pub opa_authz_remote : String
  pub service_namespace : String
  pub service_domain : String
  pub service_port : String

pub data HandlerKind : Type 0 where
  authenticator authorizer mutator error : HandlerKind

abbrev pub enabled_names : Env → HandlerKind → List String
enabled_names env authenticator = env.enabled_authenticators
enabled_names env authorizer = env.enabled_authorizers
enabled_names env mutator = env.enabled_mutators
enabled_names env error = env.enabled_error_handlers

abbrev pub is_handler_enabled : Env → HandlerKind → String → Bool
is_handler_enabled env kind name = includes (enabled_names env kind) name

abbrev pub plain : String → Handler
plain name = record { handler = name; config = none }

abbrev pub stages_of : HandlerKind → List Handler → List (HandlerKind × String)
stages_of kind [] = []
stages_of kind (h ∷ hs) = (kind, h.handler) ∷ stages_of kind hs

abbrev pub stages : OathkeeperRule → List (HandlerKind × String)
stages rule =
    stages_of authenticator rule.authenticators
    ++ (authorizer, rule.authorizer.handler) ∷ stages_of mutator rule.mutators
    ++ stages_of error (or_else rule.errors [])

-- `assertHandlersEnabled`: whether it lets the rule pass
unfoldable pub handlers_enabled : Env → OathkeeperRule → Bool
handlers_enabled env rule = all (λ (kind, name). is_handler_enabled env kind name) (stages rule)

pub data SignInMethod : Type 0 where
  cookie bearer introspection : SignInMethod

abbrev pub is_cookie : SignInMethod → Bool
is_cookie cookie = true
is_cookie _ = false

abbrev pub is_bearer : SignInMethod → Bool
is_bearer bearer = true
is_bearer _ = false

abbrev pub is_introspection : SignInMethod → Bool
is_introspection introspection = true
is_introspection _ = false

abbrev pub x_session_token : Config
x_session_token = record {
  remote = none;
  payload = none;
  rest = ("token_from", "{\"header\":\"X-Session-Token\"}") ∷ [];
}

abbrev pub when : Bool → Handler → List Handler
when b h = if b then h ∷ [] else []

-- the chain before its handlers are checked
abbrev pub sign_in_chain : List SignInMethod → List Handler
sign_in_chain sign_in =
    let bearer_config = if any is_introspection sign_in then some x_session_token else none in
    when (any is_cookie sign_in) (plain "cookie_session")
    ++ when (any is_bearer sign_in) (record { handler = "bearer_token"; config = bearer_config })
    ++ when (any is_introspection sign_in) (plain "oauth2_introspection")

-- an error is its status code
unfoldable pub build_sign_in_authenticators : Env → List SignInMethod → Result ℕ (List Handler)
build_sign_in_authenticators env [] = ok (plain "noop" ∷ [])
build_sign_in_authenticators env (m ∷ ms) =
    let out = sign_in_chain (m ∷ ms) in
    if all (λ (h : Handler). is_handler_enabled env authenticator h.handler) out
    then ok out
    else err 400

abbrev pub groups_template : String
groups_template =
    "{{ $ma := index .Extra.identity \"metadata_admin\" }}{{ if $ma }}{{ if index $ma \"groups\" }}{{ toJson (index $ma \"groups\") }}{{ else }}[]{{ end }}{{ else }}[]{{ end }}"

-- the payload names the service as `app`
abbrev pub payload_for : String → String
payload_for service =
    append
      "{\"input\":{\"sub\":\"{{ print .Subject }}\",\"email\":\"{{ index .Extra.identity.traits \"email\" }}\",\"groups\":"
      (append groups_template (
        append
          ",\"object\":\"{{ .MatchContext.URL.Path }}\",\"action\":\"{{ .MatchContext.Method }}\",\"app\":\""
          (append service "\"}}")))

unfoldable pub build_remote_json_config : Env → String → Config
build_remote_json_config env service = record {
  remote = some env.opa_authz_remote;
  payload = some (payload_for service);
  rest = [];
}

-- `id === svc || id.startsWith(svc + '-')`
abbrev pub owns : String → String → Bool
owns id service = id == service || starts_with id (append service "-")

-- the longer of two services, the first of equals
abbrev pub longer : Option String → String → String
longer none service = service
longer (some best) service = if ltb (text_length best) (text_length service) then service else best

abbrev pub best_service : String → Option String → List String → Option String
best_service id best [] = best
best_service id best (service ∷ services) =
    let next = best_service id (some (longer best service)) services in
    let same = best_service id best services in if owns id service then next else same

-- `id.split('-')[0]`
abbrev pub before_dash : String → String
before_dash String.[] = String.[]
before_dash (String.◌∷◌ c s) =
    let rest = before_dash s in if same_number (code c) b'-' then String.[] else String.◌∷◌ c rest

unfoldable pub derive_service_for_rule : String → List String → String
derive_service_for_rule id services = or_else (best_service id none services) (before_dash id)

-- undefined, null or a blank text
abbrev pub is_missing : Option String → Bool
is_missing none = true
is_missing (some s) = is_blank s

abbrev pub no_config : Config
no_config = record { remote = none; payload = none; rest = [] }

abbrev pub filled : Config → Config → Config
filled config built = record config {
  remote = if is_missing config.remote then built.remote else config.remote;
  payload = if is_missing config.payload then built.payload else config.payload;
}

unfoldable pub backfill_remote_json_config : Env → List String → OathkeeperRule → OathkeeperRule
backfill_remote_json_config env services rule =
    let config = or_else rule.authorizer.config no_config in
    let built = build_remote_json_config env (derive_service_for_rule rule.id services) in
    let complete = not (is_missing config.remote) && not (is_missing config.payload) in
    let backfilled = record rule {
      authorizer = record rule.authorizer { config = some (filled config built) };
    } in
    if rule.authorizer.handler == "remote_json"
    then (if complete then rule else backfilled)
    else rule

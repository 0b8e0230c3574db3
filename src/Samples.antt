-- ===== src/Samples.antt =====
-- A small deployment for the tests: four groups, three users, and an OPA that knows one
-- super_admin and one organisation admin.
use jinbe.Prelude.{
  String, true, ◌&&◌, ◌==◌, if◌then◌else◌, Option, none, some, List, [], ◌∷◌, Entries,
}
use jinbe.Redis.{Redis}
use jinbe.Redis.Memory.{memory as redis_memory}
use jinbe.Kratos.{Identity, Kratos}
use jinbe.Kratos.Memory.{memory as kratos_memory}
use jinbe.Opa.{Opa, body, not_ok}
use jinbe.Rbac.{RbacStore, GroupDefinition, ResourceMetadata}

abbrev pub redis : Redis
redis = redis_memory

abbrev pub group_definitions : Entries GroupDefinition
group_definitions =
    ("users", [])
    ∷ ("team", ("billing", "viewer" ∷ []) ∷ [])
    ∷ ("operators", ("billing", "admin" ∷ []) ∷ [])
    ∷ ("super_admins", ("global", "super_admin" ∷ []) ∷ [])
    ∷ []

abbrev pub system_flag : ResourceMetadata
system_flag = record { system = some true; description = none }

abbrev pub store : RbacStore redis
store = record {
  groups = group_definitions;
  groups_meta = ("super_admins", system_flag) ∷ [];
  services_meta = [];
  roles =
      ("billing", ("viewer", "invoices:read" ∷ []) ∷ ("admin", "*" ∷ []) ∷ [])
      ∷ ("global", ("super_admin", "*" ∷ []) ∷ [])
      ∷ [];
  route_map = [];
}

abbrev pub user : String → String → Option (List String) → Identity
user id email groups = record {
  id = id;
  content = record {
    schema_id = "default";
    state = "active";
    traits = record { email = some email; name = some "Ann Lee" };
    metadata_admin = some (record { groups = groups; scim = none; other = [] });
  };
}

abbrev pub ann : Identity
ann = user "id-ann" "ann@x" (some ("users" ∷ []))

abbrev pub bob : Identity
bob = user "id-bob" "bob@x" (some ("team" ∷ []))

abbrev pub users : List Identity
users = ann ∷ bob ∷ []

-- Ann has a second factor.
abbrev pub kratos : Kratos
kratos = kratos_memory ("id-ann" ∷ [])

abbrev pub opa : Opa
opa = record {
  user_info = λ email app. not_ok;
  simulate = λ email app action object. body (
      some (record {
        allow = some true;
        groups = none;
        roles = none;
        permissions = none;
        super_admin = some (email == "root@x");
      }));
  can_grant = λ input. body (some (input.email == "boss@x" && input.target_group == "team"));
  manageable_orgs = λ email. body (if email == "boss@x" then some ("org-1" ∷ []) else none);
  assignable_groups = λ email. body none;
}

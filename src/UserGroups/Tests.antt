-- ===== src/UserGroups/Tests.antt =====
-- Runs of `applyGroupUpdate`, and each property of the module at one of them.
use jinbe.Prelude.{
  ℕ, ◌≡◌, refl, inl, String, ◌==◌, true, none, some, List, [], ◌∷◌, ok, ◌≢◌, ◌⊎◌, if◌then◌else◌,
}
use jinbe.Rbac.SuperAdmin.{IsSuperAdmin}
use jinbe.Samples.{redis, store, kratos, opa, users, ann}
use jinbe.Kratos.{get_user_groups, update_user_groups}
use jinbe.Rbac.{
  assert_super_admin, def_grants_global_power, any_service_wildcard, group_grants_global_power,
  group_grants_admin_power, is_empty_group, is_system_group,
}
use jinbe.Opa.{simulate, can_grant}
use jinbe.UserGroups.{
  GroupUpdateActor, ApplyGroupUpdateInput, ActorPrivilegePolicy, wildcard_in_org,
  super_admin_required, at, granted, denied, privilege_escalation_blocked,
  groups_precondition_failed, audit_denied, apply_group_update, must_check, final_groups,
  changes_to_check, gated_changes, first_denial, check_privilege_escalation, org_allows,
  find_group_requiring_mfa, step_up_denies, Outcome, Outcome,
}
use jinbe.UserGroups.Authority.{MayGrant, org_update-MayGrant, global_update-IsSuperAdmin}
use jinbe.UserGroups.Factors.{IsSteppedUp, update-IsSteppedUp, update-HasMfa}
use jinbe.UserGroups.Effects.{IsAudited, denied-IsAudited, get_user_groups-apply_group_update}

abbrev now : ℕ
now = 1_700_000_000_000

abbrev actor : String → GroupUpdateActor
actor email = record {
  email = some email;
  aal = some "aal2";
  authenticated_at = some (at 1_699_999_900_000);
}

abbrev request : String → String → List String → ActorPrivilegePolicy → ApplyGroupUpdateInput
request who id groups policy = record {
  identity = record {
    id = id;
    email = if id == "id-ann" then "ann@x" else "bob@x";
    organization_id = none;
  };
  new_groups = groups;
  actor = actor who;
  policy = policy;
}

-- the organisation admin puts Ann into the team
abbrev org_request : ApplyGroupUpdateInput
org_request = request "boss@x" "id-ann" ("team" ∷ []) (wildcard_in_org "org-1")

-- the super_admin makes Ann one too
abbrev global_request : ApplyGroupUpdateInput
global_request = request "root@x" "id-ann" ("super_admins" ∷ []) super_admin_required

-- the organisation admin may not take Bob's place among the operators
abbrev bad_request : ApplyGroupUpdateInput
bad_request = request "boss@x" "id-bob" ("operators" ∷ []) (wildcard_in_org "org-1")

run : ApplyGroupUpdateInput → Outcome redis kratos opa store now
unfolding apply_group_update get_user_groups update_user_groups final_groups changes_to_check
    gated_changes must_check first_denial check_privilege_escalation org_allows assert_super_admin
    find_group_requiring_mfa step_up_denies def_grants_global_power any_service_wildcard
    group_grants_global_power group_grants_admin_power is_empty_group is_system_group simulate
    can_grant
run input = apply_group_update redis kratos opa store now users input

org_run : (run org_request).0 ≡ granted ("team" ∷ [])
unfolding run
org_run = refl

bad_run : run bad_request ≡ (
  denied 422 (privilege_escalation_blocked "operators"),
  users,
  audit_denied (privilege_escalation_blocked "operators") (some "operators") 422 ∷ [],
)
unfolding run
bad_run = refl

abbrev result : ApplyGroupUpdateInput → Outcome redis kratos opa store now
result input = apply_group_update redis kratos opa store now users input

org_update-MayGrant_example : MayGrant redis opa store (some "boss@x") "org-1" "team"
unfolding run
org_update-MayGrant_example =
    org_update-MayGrant redis kratos opa store now users (result org_request).1 org_request
      ("users" ∷ []) ("team" ∷ []) (result org_request).2 refl refl "org-1" "team" refl
      (inl (refl, refl)) refl

global_update-IsSuperAdmin_example : IsSuperAdmin opa (some "root@x")
unfolding run
global_update-IsSuperAdmin_example =
    global_update-IsSuperAdmin redis kratos opa store now users (result global_request).1
      global_request ("users" ∷ []) ("super_admins" ∷ []) (result global_request).2 refl refl
      "super_admins" refl (refl, refl) refl

update-IsSteppedUp_example : IsSteppedUp now (actor "boss@x")
unfolding run
update-IsSteppedUp_example =
    update-IsSteppedUp redis kratos opa store now users (result org_request).1 org_request
      ("users" ∷ []) ("team" ∷ []) (result org_request).2 refl refl "team" (refl, refl) refl

update-HasMfa_example : kratos.get_mfa users "id-ann" ≡ ok true
unfolding run
update-HasMfa_example =
    update-HasMfa redis kratos opa store now users (result global_request).1 global_request
      ("users" ∷ []) ("super_admins" ∷ []) (result global_request).2 refl refl "super_admins"
      (refl, refl) refl

denied-IsAudited_example :
    ((privilege_escalation_blocked "operators" ≡ groups_precondition_failed)
      × ((result bad_request).1 ≡ users)
      × ((result bad_request).2 ≡ []))
    ⊎ IsAudited redis kratos opa store now users
        (result bad_request).1
        (result bad_request).2
        422
        (privilege_escalation_blocked "operators")
unfolding run
denied-IsAudited_example =
    denied-IsAudited redis kratos opa store now users (result bad_request).1 bad_request
      (result bad_request).2 422 (privilege_escalation_blocked "operators") refl

get_user_groups-apply_group_update_example :
    (get_user_groups kratos (result org_request).1 "ann@x" ≡ ok ("team" ∷ []))
    × ("team" ∷ [] ≡ final_groups ("team" ∷ []))
    × (◌≢◌ {A = List String} ("team" ∷ []) [])
unfolding run
get_user_groups-apply_group_update_example =
    get_user_groups-apply_group_update redis kratos opa store now users (result org_request).1
      org_request ("team" ∷ []) (result org_request).2 ann refl refl refl

-- ===== src/UserGroups.antt =====
-- src/services/user-groups.service.ts: changing a user's groups, with its gates. The functions of
-- rbac.service.ts that the gates call are here too.
-- `applyGroupUpdate` is the body that runs under the lock user-groups:<email>: between its read
-- and its write no other group writer of jinbe runs.
pub mod Gates
pub mod Authority
pub mod Factors
pub mod Effects
mod Tests
use jinbe.Prelude.{
  ℕ, ◌-◌, ◌*◌, String, Bool, true, false, not, ◌&&◌, ◌||◌, ◌==◌, if◌then◌else◌, leb, Option, none,
  some, List, [], ◌∷◌, ◌++◌, map, Result, ok, err, or_else, includes, filter, is_empty,
}
use jinbe.Redis.{Redis}
use jinbe.Kratos.{Kratos, Failure, Identity, get_user_groups, update_user_groups, base_group}
use jinbe.Opa.{Opa, can_grant}
use jinbe.Rbac.{
  RbacStore, assert_super_admin, is_system_group, group_grants_global_power,
  group_grants_admin_power, is_empty_group,
}

-- `new Date(x).getTime()`: a time in milliseconds since 1970, or NaN
pub data Timestamp : Type 0 where
  invalid : Timestamp
  at : ℕ → Timestamp

pub record GroupUpdateActor : Type 0 where
  pub email : Option String
  pub aal : Option String
  pub authenticated_at : Option Timestamp

pub record ResolvedIdentity : Type 0 where
  pub id : String
  pub email : String
  pub organization_id : Option String

pub data ActorPrivilegePolicy : Type 0 where
  super_admin_required : ActorPrivilegePolicy
  wildcard_in_org : String → ActorPrivilegePolicy

pub record ApplyGroupUpdateInput : Type 0 where
  pub identity : ResolvedIdentity
  pub new_groups : List String
  pub actor : GroupUpdateActor
  pub policy : ActorPrivilegePolicy

pub data Op : Type 0 where
  add remove : Op

-- `toCheck`: a group, and whether the update adds or removes it
pub record Change : Type 0 where
  pub group : String
  pub op : Op

-- the body's `error`, with the group that blocks where the body names one
pub data Denial : Type 0 where
  groups_precondition_failed : Denial
  privilege_escalation_blocked : String → Denial
  mfa_required : String → Denial
  reauth_required : Denial

pub data ApplyGroupUpdateResult : Type 0 where
  granted : List String → ApplyGroupUpdateResult
  denied : ℕ → Denial → ApplyGroupUpdateResult
  thrown : Failure → ApplyGroupUpdateResult

-- what is sent off and not awaited: an audit event, or the OPAL notification
pub data Effect : Type 0 where
  audit_denied : Denial → Option String → ℕ → Effect
  audit_applied : List String → List String → Effect
  notify_bindings_changed : Effect

abbrev pub org_admin_flag_group : String
org_admin_flag_group = "org_admins"

abbrev pub step_up_max_age_ms : ℕ
step_up_max_age_ms = 15 * 60 * 1000

-- `finalGroups`
unfoldable pub final_groups : List String → List String
final_groups new_groups = if is_empty new_groups then base_group ∷ [] else new_groups

-- `xs.filter(g => !ys.includes(g))`
abbrev pub missing_from : List String → List String → List String
missing_from ys xs = filter (λ g. not (includes ys g)) xs

abbrev as_change : Op → String → Change
as_change op group = record { group = group; op = op }

-- `toCheck`
unfoldable pub changes_to_check : ActorPrivilegePolicy → List String → List String → List Change
changes_to_check super_admin_required old final = map (as_change add) (missing_from old final)
changes_to_check (wildcard_in_org org) old final =
    map (as_change add) (missing_from old final) ++ map (as_change remove) (missing_from final old)

-- `stepUpDenial`, true when it denies; `now` is Date.now()
abbrev is_stale : ℕ → Option Timestamp → Bool
is_stale now none = true
is_stale now (some invalid) = true
is_stale now (some (at ms)) = leb ms 0 || not (leb (now - ms) step_up_max_age_ms)

abbrev is_aal2 : Option String → Bool
is_aal2 none = false
is_aal2 (some aal) = aal == "aal2"

unfoldable pub step_up_denies : ℕ → GroupUpdateActor → Bool
step_up_denies now actor = not (is_aal2 actor.aal) || is_stale now actor.authenticated_at

module _ (opa : Opa) where
  -- the answer of the org-scoped gate: true when the change may go on
  unfoldable pub org_allows : Bool → String → String → Option String → Bool
  org_allows global_power org group none = false
  org_allows global_power org group (some email) =
      not global_power
      && not (email == "")
      && can_grant opa (record { email = email; target_group = group; target_org = org })

module _ (redis : Redis) (s : RbacStore redis) where
  -- `mustCheck`
  unfoldable pub must_check : ActorPrivilegePolicy → Change → Bool
  must_check super_admin_required c =
      group_grants_admin_power redis s c.group || (c.group == org_admin_flag_group)
  must_check (wildcard_in_org org) c =
      not ((c.group == base_group) && is_empty_group redis s c.group)

  abbrev needs_mfa : String → Bool
  needs_mfa group = is_system_group redis s group && group_grants_admin_power redis s group

  -- `findPrivilegedGroupRequiringMFA`; the look-up is made at the first group that needs it, and
  -- a look-up that fails counts as no factor
  unfoldable pub find_group_requiring_mfa : Result Failure Bool → List String → Option String
  find_group_requiring_mfa mfa [] = none
  find_group_requiring_mfa mfa (g ∷ gs) =
      let rest = find_group_requiring_mfa mfa gs in
      if needs_mfa g
      then elim mfa [ err e ↦ some g | ok b ↦ (if b then rest else some g) ]
      else rest

  unfoldable pub gated_changes : ActorPrivilegePolicy → List String → List String → List Change
  gated_changes policy old final = filter (must_check policy) (changes_to_check policy old final)

module _ (redis : Redis) (opa : Opa) (s : RbacStore redis) where
  escalation_status : Option ℕ → Option ℕ
  escalation_status none = none
  escalation_status (some status) = some (if leb status 401 && leb 401 status then 401 else 422)

  -- `checkPrivilegeEscalation`: the status of the denial
  unfoldable pub check_privilege_escalation :
      ActorPrivilegePolicy → GroupUpdateActor → Change → Option ℕ
  unfolding escalation_status
  check_privilege_escalation super_admin_required actor c =
      escalation_status (assert_super_admin opa actor.email)
  check_privilege_escalation (wildcard_in_org org) actor c =
      if org_allows opa (group_grants_global_power redis s c.group) org c.group actor.email
      then none
      else some 422

  -- the loop over `gated`: the first denial, with its group
  unfoldable pub first_denial :
      ActorPrivilegePolicy → GroupUpdateActor → List Change → Option (String × ℕ)
  first_denial policy actor [] = none
  first_denial policy actor (c ∷ cs) =
      let rest = first_denial policy actor cs in
      elim (check_privilege_escalation policy actor c) [
        | none ↦ rest
        | some status ↦ some (c.group, status)
      ]

module _ (redis : Redis) (kratos : Kratos) (opa : Opa) (s : RbacStore redis) (now : ℕ) where
  abbrev pub Outcome : Type 0
  Outcome = ApplyGroupUpdateResult × kratos.World × List Effect

  -- what follows the write
  after_write : Result Failure Identity × kratos.World → List String → List String → Outcome
  after_write (err e, w') old final = (thrown e, w', [])
  after_write (ok i, w') old final =
      (granted final, w', notify_bindings_changed ∷ audit_applied old final ∷ [])

  abbrev deny : kratos.World → ℕ → Denial → Option String → Outcome
  deny w status denial group = (denied status denial, w, audit_denied denial group status ∷ [])

  abbrev gated_head : List Change → Option String
  gated_head [] = none
  gated_head (c ∷ cs) = some c.group

  -- the step-up gate, which comes last
  step_up_gate :
      kratos.World → ApplyGroupUpdateInput → List Change → List String → List String → Outcome
  unfolding after_write
  step_up_gate w input gated old final =
      if not (is_empty gated) && step_up_denies now input.actor
      then deny w 422 reauth_required (gated_head gated)
      else after_write (update_user_groups kratos w input.identity.email final) old final

  mfa_gate :
      kratos.World → ApplyGroupUpdateInput → List Change → List String → List String → Outcome
  unfolding step_up_gate
  mfa_gate w input gated old final =
      elim (find_group_requiring_mfa redis s (kratos.get_mfa w input.identity.id)
        (missing_from old final)) [
          | some blocker ↦ deny w 422 (mfa_required blocker) (some blocker)
          | none ↦ step_up_gate w input gated old final
        ]

  privilege_gate :
      kratos.World → ApplyGroupUpdateInput → List Change → List String → List String → Outcome
  unfolding mfa_gate
  privilege_gate w input gated old final =
      elim (first_denial redis opa s input.policy input.actor gated) [
        | some (group, status) ↦ deny w status (privilege_escalation_blocked group) (some group)
        | none ↦ mfa_gate w input gated old final
      ]

  unfoldable pub apply_group_update : kratos.World → ApplyGroupUpdateInput → Outcome
  unfolding privilege_gate
  apply_group_update w input = elim (get_user_groups kratos w input.identity.email) [
    | err e ↦ (denied 422 groups_precondition_failed, w, [])
    | ok old ↦
        let final = final_groups input.new_groups in
        privilege_gate w input (gated_changes redis s input.policy old final) old final
  ]

-- ===== src/UserGroups/Authority.antt =====
-- Whose authority stands behind the groups that an update adds and removes.
use jinbe.Prelude.{
  ℕ, String, ◌≡◌, subst, true, false, not, ◌&&◌, ◌||◌, Option, none, some, List, ok, arith, All,
  All-filter, All-of_append, All-of_map, All-includes, includes, includes-filter, ◌⊎◌, inl, inr,
  Option-cases, ◌==◌,
}
use jinbe.Redis.{Redis}
use jinbe.Kratos.{Kratos, get_user_groups, base_group}
use jinbe.Opa.{Opa, can_grant}
use jinbe.Rbac.{RbacStore, group_grants_global_power, group_grants_admin_power, is_empty_group}
use jinbe.Rbac.SuperAdmin.{IsSuperAdmin, assert_super_admin-IsSuperAdmin}
use jinbe.UserGroups.{
  ApplyGroupUpdateInput, ActorPrivilegePolicy, super_admin_required, wildcard_in_org,
  GroupUpdateActor, Change, Effect, granted, Op, add, remove, as_change, changes_to_check,
  missing_from, must_check, org_allows, check_privilege_escalation, first_denial, gated_changes,
  apply_group_update, org_admin_flag_group,
}
use jinbe.UserGroups.Gates.{first_denial-eq-none, apply_group_update-Passed}

-- What a list of groups gains and loses between two states.
abbrev pub IsAdded : List String → List String → String → Type 0
IsAdded old new g = (includes old g ≡ false) × (includes new g ≡ true)

pub includes-missing_from :
    (ys xs : List String) (g : String) → IsAdded ys xs g → includes (missing_from ys xs) g ≡ true
includes-missing_from ys xs g h = ground (arith, includes-filter (λ g. not (includes ys g)) xs g)

module _ (Q : Change → Type 0) (old final : List String) (g : String) where
  pub All-changes_add :
      (p : ActorPrivilegePolicy)
      → IsAdded old final g
      → All Q (changes_to_check p old final)
      → Q (as_change add g)
  unfolding changes_to_check
  All-changes_add super_admin_required h a =
      All-includes (λ g. Q (as_change add g)) (missing_from old final) g (All-of_map Q _ _ a)
        (includes-missing_from old final g h)
  All-changes_add (wildcard_in_org org) h a =
      All-includes (λ g. Q (as_change add g)) (missing_from old final) g
        (All-of_map Q _ _ (All-of_append Q _ _ a).0) (includes-missing_from old final g h)

  All-changes_remove :
      (org : String)
      → IsAdded final old g
      → All Q (changes_to_check (wildcard_in_org org) old final)
      → Q (as_change remove g)
  unfolding changes_to_check
  All-changes_remove org h a =
      All-includes (λ g. Q (as_change remove g)) (missing_from final old) g
        (All-of_map Q _ _ (All-of_append Q _ _ a).1) (includes-missing_from final old g h)

module _ (redis : Redis) (opa : Opa) (s : RbacStore redis) where
  -- Every change that must be checked passed the check.
  gated-check :
      (p : ActorPrivilegePolicy) (a : GroupUpdateActor) (old final : List String)
      → first_denial redis opa s p a (gated_changes redis s p old final) ≡ none
      → All
          (λ c. must_check redis s p c ≡ true → check_privilege_escalation redis opa s p a c ≡ none)
          (changes_to_check p old final)
  unfolding gated_changes
  gated-check p a old final h = All-filter _ _ _ (first_denial-eq-none redis opa s p a _ h)

  -- OPA lets the actor grant the group in the organisation, and the group has no global power.
  abbrev pub MayGrant : Option String → String → String → Type 0
  MayGrant actor org g =
      (email : String) × (actor ≡ some email)
      × (can_grant opa (record { email = email; target_group = g; target_org = org }) ≡ true)
      × (group_grants_global_power redis s g ≡ false)

  org_check-MayGrant :
      (org : String) (a : GroupUpdateActor) (c : Change)
      → check_privilege_escalation redis opa s (wildcard_in_org org) a c ≡ none
      → MayGrant a.email org c.group
  unfolding check_privilege_escalation org_allows
  org_check-MayGrant org a c h = elim (Option-cases a.email) [
    | inl none_given ↦ ground arith
    | inr (email, given) ↦ (email, given, ground arith, ground arith)
  ]

  must_check_org :
      (org : String) (op : Op) (g : String)
      → (g == base_group) && is_empty_group redis s g ≡ false
      → must_check redis s (wildcard_in_org org) (as_change op g) ≡ true
  unfolding must_check
  must_check_org org op g h = ground arith

  org_gate-MayGrant :
      (org : String) (a : GroupUpdateActor) (old final : List String) (g : String)
      → first_denial redis opa s
          (wildcard_in_org org)
          a
          (gated_changes redis s (wildcard_in_org org) old final)
        ≡ none
      → IsAdded old final g ⊎ IsAdded final old g
      → (g == base_group) && is_empty_group redis s g ≡ false
      → MayGrant a.email org g
  org_gate-MayGrant org a old final g h (inl added) n = org_check-MayGrant org a (as_change add g) (
      All-changes_add _ old final g (wildcard_in_org org) added
        (gated-check (wildcard_in_org org) a old final h) (must_check_org org add g n))
  org_gate-MayGrant org a old final g h (inr removed) n =
      org_check-MayGrant org a (as_change remove g) (
        All-changes_remove _ old final g org removed
          (gated-check (wildcard_in_org org) a old final h) (must_check_org org remove g n))

  global_check-IsSuperAdmin :
      (a : GroupUpdateActor) (c : Change)
      → check_privilege_escalation redis opa s super_admin_required a c ≡ none
      → IsSuperAdmin opa a.email
  unfolding check_privilege_escalation
  global_check-IsSuperAdmin a c h = assert_super_admin-IsSuperAdmin opa a.email (ground arith)

  must_check_global :
      (g : String)
      → group_grants_admin_power redis s g || (g == org_admin_flag_group) ≡ true
      → must_check redis s super_admin_required (as_change add g) ≡ true
  unfolding must_check
  must_check_global g h = h

  global_gate-IsSuperAdmin :
      (a : GroupUpdateActor) (old final : List String) (g : String)
      → first_denial redis opa s super_admin_required a
          (gated_changes redis s super_admin_required old final)
        ≡ none
      → IsAdded old final g
      → group_grants_admin_power redis s g || (g == org_admin_flag_group) ≡ true
      → IsSuperAdmin opa a.email
  global_gate-IsSuperAdmin a old final g h added power =
      global_check-IsSuperAdmin a (as_change add g) (
        All-changes_add _ old final g super_admin_required added
          (gated-check super_admin_required a old final h) (must_check_global g power))

module _ (redis : Redis) (kratos : Kratos) (opa : Opa) (s : RbacStore redis) (now : ℕ)
    (w w' : kratos.World) (input : ApplyGroupUpdateInput) (old groups : List String)
    (es : List Effect) (read : get_user_groups kratos w input.identity.email ≡ ok old)
    (done : apply_group_update redis kratos opa s now w input ≡ (granted groups, w', es)) where
  pub authorised_at :
      (p : ActorPrivilegePolicy)
      → input.policy ≡ p
      → first_denial redis opa s p input.actor (gated_changes redis s p old groups) ≡ none
  authorised_at p e =
      let passed = apply_group_update-Passed redis kratos opa s now groups w' es w input done in
      let same : passed.old ≡ old = cc (passed.read, read) in
      subst
        (λ (p : ActorPrivilegePolicy).
          first_denial redis opa s p input.actor (gated_changes redis s p old groups) ≡ none)
        e
        (subst
          (λ (o : List String).
            first_denial redis opa s input.policy input.actor
              (gated_changes redis s input.policy o groups)
            ≡ none)
          same passed.authorised)

  -- If an update on the endpoint of an organisation goes through, then for each group that it adds
  -- or removes, other than an empty base group, OPA lets the actor grant that group in the
  -- organisation, and the group has no global power.
  pub org_update-MayGrant :
      (org g : String)
      → input.policy ≡ wildcard_in_org org
      → IsAdded old groups g ⊎ IsAdded groups old g
      → (g == base_group) && is_empty_group redis s g ≡ false
      → MayGrant redis opa s input.actor.email org g
  org_update-MayGrant org g e changed n =
      org_gate-MayGrant redis opa s org input.actor old groups g (authorised_at _ e) changed n

  -- If an update on the global endpoint goes through and adds a group with admin power, or the
  -- org-admin flag group, then OPA answers that the actor is a super_admin.
  pub global_update-IsSuperAdmin :
      (g : String)
      → input.policy ≡ super_admin_required
      → IsAdded old groups g
      → group_grants_admin_power redis s g || (g == org_admin_flag_group) ≡ true
      → IsSuperAdmin opa input.actor.email
  global_update-IsSuperAdmin g e added power =
      global_gate-IsSuperAdmin redis opa s input.actor old groups g (authorised_at _ e) added power

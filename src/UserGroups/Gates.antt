-- ===== src/UserGroups/Gates.antt =====
-- What a group update that went through tells of the gates of `applyGroupUpdate`.
use jinbe.Prelude.{
  ℕ, String, ◌≡◌, refl, true, false, none, List, [], ◌∷◌, Result, ok, err, arith, All, is_empty,
  ◌⊎◌, inl, inr, Option-cases, Result-cases,
}
use jinbe.Redis.{Redis}
use jinbe.Kratos.{Kratos, Failure, Identity, get_user_groups, update_user_groups}
use jinbe.Opa.{Opa}
use jinbe.Rbac.{RbacStore}
use jinbe.UserGroups.{
  ApplyGroupUpdateInput, ActorPrivilegePolicy, GroupUpdateActor, Change, Effect, granted,
  final_groups, missing_from, step_up_denies, check_privilege_escalation, first_denial,
  find_group_requiring_mfa, gated_changes, after_write, step_up_gate, mfa_gate, privilege_gate,
  apply_group_update,
}

pub first_denial-eq-none :
    (redis : Redis) (opa : Opa) (s : RbacStore redis) (p : ActorPrivilegePolicy)
    (a : GroupUpdateActor) (cs : List Change)
    → first_denial redis opa s p a cs ≡ none
    → All (λ c. check_privilege_escalation redis opa s p a c ≡ none) cs
unfolding first_denial
first_denial-eq-none redis opa s p a [] h = tt
first_denial-eq-none redis opa s p a (c ∷ cs) h =
    elim (Option-cases (check_privilege_escalation redis opa s p a c)) [
      | inl e ↦ (e, first_denial-eq-none redis opa s p a cs (rw (e, first_denial) at h))
      | inr (n, e) ↦ ground arith
    ]

module _ (redis : Redis) (kratos : Kratos) (opa : Opa) (s : RbacStore redis) (now : ℕ) where
  -- All gates passed, and the write was made.
  pub record Passed (w : kratos.World) (input : ApplyGroupUpdateInput) (groups : List String)
      (w' : kratos.World) : Type 0 where
    pub old : List String
    pub written : Identity
    pub read : get_user_groups kratos w input.identity.email ≡ ok old
    pub final : groups ≡ final_groups input.new_groups
    pub authorised :
        first_denial redis opa s input.policy input.actor
          (gated_changes redis s input.policy old groups)
        ≡ none
    pub enrolled :
        find_group_requiring_mfa redis s
          (kratos.get_mfa w input.identity.id)
          (missing_from old groups)
        ≡ none
    pub stepped_up :
        (is_empty (gated_changes redis s input.policy old groups) ≡ true)
        ⊎ (step_up_denies now input.actor ≡ false)
    pub write : update_user_groups kratos w input.identity.email groups ≡ (ok written, w')

  module _ (groups : List String) (w' : kratos.World) (es : List Effect) where
    after_write-granted :
        (p : Result Failure Identity × kratos.World) (old final : List String)
        → after_write redis kratos opa s now p old final ≡ (granted groups, w', es)
        → (i : Identity) × (groups ≡ final) × (p ≡ (ok i, w'))
    unfolding after_write
    after_write-granted (ok i, w'') old final h = (i, ground arith, ground arith)
    after_write-granted (err e, w'') old final h = ground arith

    module _ (w : kratos.World) (input : ApplyGroupUpdateInput) where
      abbrev Written : List String → List String → Type 0
      Written old final =
          after_write redis kratos opa s now
            (update_user_groups kratos w input.identity.email final) old final
          ≡ (granted groups, w', es)

      step_up_gate-granted :
          (gated : List Change) (old final : List String)
          → step_up_gate redis kratos opa s now w input gated old final ≡ (granted groups, w', es)
          → ((is_empty gated ≡ true) ⊎ (step_up_denies now input.actor ≡ false)) × Written old final
      unfolding step_up_gate
      step_up_gate-granted gated old final h = ground arith

      mfa_gate-granted :
          (gated : List Change) (old final : List String)
          → mfa_gate redis kratos opa s now w input gated old final ≡ (granted groups, w', es)
          → (find_group_requiring_mfa redis s
                (kratos.get_mfa w input.identity.id)
                (missing_from old final)
              ≡ none)
            × (step_up_gate redis kratos opa s now w input gated old final
                ≡ (granted groups, w', es))
      unfolding mfa_gate
      mfa_gate-granted gated old final h = ground arith

      privilege_gate-granted :
          (gated : List Change) (old final : List String)
          → privilege_gate redis kratos opa s now w input gated old final ≡ (granted groups, w', es)
          → (first_denial redis opa s input.policy input.actor gated ≡ none)
            × (mfa_gate redis kratos opa s now w input gated old final ≡ (granted groups, w', es))
      unfolding privilege_gate
      privilege_gate-granted gated old final h = ground arith

      apply_group_update-granted :
          apply_group_update redis kratos opa s now w input ≡ (granted groups, w', es)
          → (old : List String) × (get_user_groups kratos w input.identity.email ≡ ok old)
            × (privilege_gate redis kratos opa s now w input
                  (gated_changes redis s input.policy old (final_groups input.new_groups))
                  old
                  (final_groups input.new_groups)
                ≡ (granted groups, w', es))
      unfolding apply_group_update
      apply_group_update-granted h =
          elim (Result-cases (get_user_groups kratos w input.identity.email)) [
            | inl (e, failed) ↦ ground arith
            | inr (old, read) ↦ (old, read, rw (read, apply_group_update) at h)
          ]

      pub apply_group_update-Passed :
          apply_group_update redis kratos opa s now w input ≡ (granted groups, w', es)
          → Passed w input groups w'
      apply_group_update-Passed h =
          let (old, read, p) = apply_group_update-granted h in
          let final = final_groups input.new_groups in
          let gated = gated_changes redis s input.policy old final in
          let (authorised, m) = privilege_gate-granted gated old final p in
          let (enrolled, t) = mfa_gate-granted gated old final m in
          let (stepped_up, a) = step_up_gate-granted gated old final t in
          let (i, same, write) = after_write-granted _ old final a in
          rw same (record {
            old = old;
            written = i;
            read = read;
            final = refl;
            authorised = authorised;
            enrolled = enrolled;
            stepped_up = stepped_up;
            write = write;
          })

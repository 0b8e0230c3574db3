-- ===== src/UserGroups/Effects.antt =====
-- What an update leaves behind: nothing but an audit event when it is refused, and the new groups
-- when it goes through.
use jinbe.Prelude.{
  ℕ, String, ◌≡◌, ◌≢◌, not, ◌&&◌, Option, some, List, [], ◌∷◌, Result, ok, err, arith, is_empty,
  ◌⊎◌, inl, inr, Bool-cases, Option-cases, Result-cases,
}
use jinbe.Redis.{Redis}
use jinbe.Kratos.{Kratos, Identity, Failure, get_user_groups}
use jinbe.Kratos.Laws.{get_user_groups-update_user_groups}
use jinbe.Opa.{Opa}
use jinbe.Rbac.{RbacStore}
use jinbe.UserGroups.{
  ApplyGroupUpdateInput, Denial, Change, Effect, granted, denied, final_groups,
  groups_precondition_failed, audit_denied, missing_from, step_up_denies, gated_head, first_denial,
  find_group_requiring_mfa, after_write, step_up_gate, mfa_gate, privilege_gate, apply_group_update,
}
use jinbe.UserGroups.Gates.{apply_group_update-Passed}

module _ (redis : Redis) (kratos : Kratos) (opa : Opa) (s : RbacStore redis) (now : ℕ) where
  -- The users are as before, and the one effect is the audit event of the denial.
  abbrev pub IsAudited : kratos.World → kratos.World → List Effect → ℕ → Denial → Type 0
  IsAudited w w' es status d =
      (group : Option String) × (w' ≡ w) × (es ≡ audit_denied d group status ∷ [])

  module _ (w w' : kratos.World) (input : ApplyGroupUpdateInput) (es : List Effect) (status : ℕ)
      (d : Denial) where
    after_write-denied :
        (p : Result Failure Identity × kratos.World) (old final : List String)
        → after_write redis kratos opa s now p old final ≢ (denied status d, w', es)
    unfolding after_write
    after_write-denied (ok i, w'') old final h = ground arith
    after_write-denied (err e, w'') old final h = ground arith

    step_up_gate-denied :
        (gated : List Change) (old final : List String)
        → step_up_gate redis kratos opa s now w input gated old final ≡ (denied status d, w', es)
        → IsAudited w w' es status d
    unfolding step_up_gate
    step_up_gate-denied gated old final h =
        elim (Bool-cases (not (is_empty gated) && step_up_denies now input.actor)) [
          | inl stale ↦ (gated_head redis kratos opa s now gated, ground arith, ground arith)
          | inr fresh ↦ absurd (after_write-denied _ old final (rw (fresh, step_up_gate) at h))
        ]

    mfa_gate-denied :
        (gated : List Change) (old final : List String)
        → mfa_gate redis kratos opa s now w input gated old final ≡ (denied status d, w', es)
        → IsAudited w w' es status d
    unfolding mfa_gate
    mfa_gate-denied gated old final h =
        elim (Option-cases (
          find_group_requiring_mfa redis s (kratos.get_mfa w input.identity.id)
            (missing_from old final))) [
              | inl enrolled ↦ step_up_gate-denied gated old final (rw (enrolled, mfa_gate) at h)
              | inr (blocker, missing) ↦ (some blocker, ground arith, ground arith)
            ]

    privilege_gate-denied :
        (gated : List Change) (old final : List String)
        → privilege_gate redis kratos opa s now w input gated old final ≡ (denied status d, w', es)
        → IsAudited w w' es status d
    unfolding privilege_gate
    privilege_gate-denied gated old final h =
        elim (Option-cases (first_denial redis opa s input.policy input.actor gated)) [
          | inl clear ↦ mfa_gate-denied gated old final (rw (clear, privilege_gate) at h)
          | inr (blocked, refused) ↦ (some blocked.0, ground arith, ground arith)
        ]

    -- A refused update leaves every user as before. Either the current groups could not be read,
    -- and nothing is sent off, or the one effect is the audit event with the denial's status.
    pub denied-IsAudited :
        apply_group_update redis kratos opa s now w input ≡ (denied status d, w', es)
        → ((d ≡ groups_precondition_failed) × (w' ≡ w) × (es ≡ [])) ⊎ IsAudited w w' es status d
    unfolding apply_group_update
    denied-IsAudited h = elim (Result-cases (get_user_groups kratos w input.identity.email)) [
      | inl (e, failed) ↦ inl (ground arith, ground arith, ground arith)
      | inr (old, read) ↦ inr (privilege_gate-denied _ old _ (rw (read, apply_group_update) at h))
    ]

  final_groups-ne-nil : (gs : List String) → final_groups gs ≢ []
  unfolding final_groups
  final_groups-ne-nil gs h = ground arith

  -- After an update that goes through, Kratos answers with exactly the groups of the response,
  -- which are the requested ones, or the base group where none was requested; provided that the
  -- server held one identity under the e-mail, the same by e-mail and by id.
  pub get_user_groups-apply_group_update :
      (w w' : kratos.World) (input : ApplyGroupUpdateInput) (groups : List String)
      (es : List Effect) (j : Identity)
      → kratos.get_identities w input.identity.email ≡ ok (j ∷ [])
      → kratos.get w j.id ≡ ok j
      → apply_group_update redis kratos opa s now w input ≡ (granted groups, w', es)
      → (get_user_groups kratos w' input.identity.email ≡ ok groups)
        × (groups ≡ final_groups input.new_groups)
        × (groups ≢ [])
  get_user_groups-apply_group_update w w' input groups es j found held h =
      let passed = apply_group_update-Passed redis kratos opa s now groups w' es w input h in
      (
        get_user_groups-update_user_groups kratos w w' input.identity.email groups j passed.written
            found held passed.write,
        passed.final,
        rw passed.final (final_groups-ne-nil input.new_groups),
      )

-- ===== src/UserGroups/Factors.antt =====
-- The second factors that an update asks for: of the actor, and of the user who is changed.
use jinbe.Prelude.{
  ℕ, ◌-◌, ◌≤◌, ◌<◌, String, ◌≡◌, refl, ap, eq_iff, Bool, true, false, ◌&&◌, Option, none, some,
  List, [], ◌∷◌, Result, ok, arith, All, All-includes, All-filter, is_empty, inl, inr,
}
use jinbe.Redis.{Redis}
use jinbe.Kratos.{Kratos, Failure, get_user_groups}
use jinbe.Opa.{Opa}
use jinbe.Rbac.{RbacStore, is_system_group, group_grants_admin_power}
use jinbe.UserGroups.{
  ApplyGroupUpdateInput, ActorPrivilegePolicy, GroupUpdateActor, Change, Effect, granted, at, add,
  Timestamp, invalid, is_stale, is_aal2, as_change, changes_to_check, missing_from, must_check,
  gated_changes, step_up_max_age_ms, step_up_denies, find_group_requiring_mfa, apply_group_update,
}
use jinbe.UserGroups.Gates.{Passed, apply_group_update-Passed}
use jinbe.UserGroups.Authority.{IsAdded, All-changes_add, includes-missing_from}

-- AAL2, proven at most fifteen minutes before `now`.
abbrev pub IsSteppedUp : ℕ → GroupUpdateActor → Type 0
IsSteppedUp now a =
    (ms : ℕ) × (a.aal ≡ some "aal2")
    × (a.authenticated_at ≡ some (at ms))
    × (0 < ms)
    × (now - ms ≤ step_up_max_age_ms)

aal2 : (a : Option String) → is_aal2 a ≡ true → a ≡ some "aal2"
aal2 none h = cc
aal2 (some l) h = ap some ((eq_iff l "aal2").0 h)

fresh_at :
    (now : ℕ) (t : Option Timestamp)
    → is_stale now t ≡ false
    → (ms : ℕ) × (t ≡ some (at ms)) × (0 < ms) × (now - ms ≤ step_up_max_age_ms)
fresh_at now none h = cc
fresh_at now (some invalid) h = cc
fresh_at now (some (at ms)) h = (ms, refl, ground arith, ground arith)

pub step_up-IsSteppedUp :
    (now : ℕ) (a : GroupUpdateActor) → step_up_denies now a ≡ false → IsSteppedUp now a
unfolding step_up_denies
step_up-IsSteppedUp now a h =
    let (ms, given, positive, recent) = fresh_at now a.authenticated_at (ground arith) in
    (ms, aal2 a.aal (ground arith), given, positive, recent)

All-of_is_empty : (cs : List Change) → is_empty cs ≡ true → All (λ c. ⊥) cs
All-of_is_empty [] h = tt
All-of_is_empty (c ∷ cs) h = cc

module _ (redis : Redis) (s : RbacStore redis) where
  -- A change that must be checked is among the gated ones.
  gated-not_empty :
      (p : ActorPrivilegePolicy) (old final : List String) (g : String)
      → IsAdded old final g
      → must_check redis s p (as_change add g) ≡ true
      → is_empty (gated_changes redis s p old final) ≡ true
      → ⊥
  unfolding gated_changes
  gated-not_empty p old final g added must e =
      All-changes_add _ old final g p added
        (All-filter (λ c. ⊥) (must_check redis s p) (changes_to_check p old final)
          (All-of_is_empty _ e))
        must

  mfa_gate-All :
      (mfa : Result Failure Bool) (gs : List String)
      → find_group_requiring_mfa redis s mfa gs ≡ none
      → All
          (λ g.
            is_system_group redis s g && group_grants_admin_power redis s g ≡ true → mfa ≡ ok true)
          gs
  unfolding find_group_requiring_mfa
  mfa_gate-All mfa [] h = tt
  mfa_gate-All mfa (g ∷ gs) h = ((λ needs. ground arith), mfa_gate-All mfa gs (ground arith))

module _ (redis : Redis) (kratos : Kratos) (opa : Opa) (s : RbacStore redis) (now : ℕ)
    (w w' : kratos.World) (input : ApplyGroupUpdateInput) (old groups : List String)
    (es : List Effect) (read : get_user_groups kratos w input.identity.email ≡ ok old)
    (done : apply_group_update redis kratos opa s now w input ≡ (granted groups, w', es)) where
  old_read : (passed : Passed redis kratos opa s now w input groups w') → passed.old ≡ old
  old_read passed = cc (passed.read, read)

  -- If an update goes through and adds a group that must be checked, then the actor has AAL2,
  -- proven at most fifteen minutes before.
  pub update-IsSteppedUp :
      (g : String)
      → IsAdded old groups g
      → must_check redis s input.policy (as_change add g) ≡ true
      → IsSteppedUp now input.actor
  update-IsSteppedUp g added must =
      let passed = apply_group_update-Passed redis kratos opa s now groups w' es w input done in
      elim passed.stepped_up [
        | inl empty ↦ absurd (
            gated-not_empty redis s input.policy passed.old groups g (rw (old_read passed) added)
              must empty)
        | inr fresh ↦ step_up-IsSteppedUp now input.actor fresh
      ]

  -- If an update goes through and adds a system group with admin power, then the user whose groups
  -- are changed has a second factor.
  pub update-HasMfa :
      (g : String)
      → IsAdded old groups g
      → is_system_group redis s g && group_grants_admin_power redis s g ≡ true
      → kratos.get_mfa w input.identity.id ≡ ok true
  update-HasMfa g added needs =
      let passed = apply_group_update-Passed redis kratos opa s now groups w' es w input done in
      All-includes _ (missing_from passed.old groups) g
        (mfa_gate-All redis s (kratos.get_mfa w input.identity.id) _ passed.enrolled)
        (includes-missing_from passed.old groups g (rw (old_read passed) added)) needs

-- ===== src/Rbac/SuperAdmin.antt =====
-- What it means that `requireSuperAdmin` lets an actor through.
use jinbe.Prelude.{String, ◌≡◌, refl, true, Option, none, some, arith, Option-cases, inl, inr}
use jinbe.Opa.{Opa, SimulateResult, simulate}
use jinbe.Rbac.{assert_super_admin}

-- OPA answers that the actor is a super_admin.
abbrev pub IsSuperAdmin : Opa → Option String → Type 0
IsSuperAdmin opa actor =
    (email : String) × (r : SimulateResult) × (actor ≡ some email)
    × (simulate opa email "jinbe" "POST" "/api/admin/rbac/groups" ≡ some r)
    × (r.super_admin ≡ true)

pub assert_super_admin-IsSuperAdmin :
    (opa : Opa) (actor : Option String)
    → assert_super_admin opa actor ≡ none
    → IsSuperAdmin opa actor
unfolding assert_super_admin
assert_super_admin-IsSuperAdmin opa none h = cc
assert_super_admin-IsSuperAdmin opa (some email) h =
    elim (Option-cases (simulate opa email "jinbe" "POST" "/api/admin/rbac/groups")) [
      | inl unreachable ↦ ground arith
      | inr (r, answered) ↦ (email, r, refl, answered, ground arith)
    ]

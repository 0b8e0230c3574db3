-- ===== src/Middleware/Admission.antt =====
-- Who gets through the hooks of src/routes/rbac.routes.ts.
use jinbe.Prelude.{
  ℕ, String, ◌≡◌, refl, sym, subst, ◌∙◌, inl, inr, ◌⊎◌, true, false, Bool-cases, Option,
  Option-cases, none, some, Result, ok, err, List,
}
use mathlib.Core.Option.{some-injective}
use jinbe.Opa.{Opa, UserRbacInfo, SimulateResult, get_user_info, simulate}
use jinbe.UserGroups.{step_up_denies}
use jinbe.UserGroups.Factors.{IsSteppedUp, step_up-IsSteppedUp}
use jinbe.Middleware.{
  Environment, Incoming, UserContext, extract_identity, require_auth, caller, has_any_group,
  admin_groups, super_admin_groups, require_named_group, group_verdict, role_verdict,
  require_super_admin_role, require_recent_mfa, actor_of, then_hook, then_with, authoring_route,
  org_admins_route,
}
use jinbe.Middleware.Credentials.{
  OfMachine, OfSession, extract_identity-credential, require_auth-context, caller-some,
}

then_with-ok :
    {A B : Type 0} (m : Result ℕ A) (f : A → Result ℕ B) (b : B)
    → then_with m f ≡ ok b
    → (a : A) × (m ≡ ok a) × (f a ≡ ok b)
then_with-ok (ok a) f b h = (a, refl, h)
then_with-ok (err s) f b h = cc

module _ (env : Environment) where
  module _ (opa : Opa) (no_bypass : env.dev_bypass ≡ false) where
    -- OPA answers that the user is a super_admin.
    abbrev pub HasRole : String → Type 0
    HasRole email =
        (res : SimulateResult) × (simulate opa email env.app_name "POST" "/api/admin/rbac/groups"
          ≡ some res)
        × (res.super_admin ≡ true)

    -- OPA lists the user in one of the groups.
    abbrev pub IsInGroup : List String → String → Type 0
    IsInGroup required email =
        (info : UserRbacInfo) × (get_user_info opa email env.app_name ≡ some info)
        × (has_any_group env info.groups required ≡ true)

    role_verdict-ok :
        (r : Option SimulateResult)
        → role_verdict env opa r ≡ ok tt
        → (res : SimulateResult) × (r ≡ some res) × (res.super_admin ≡ true)
    role_verdict-ok none h = cc
    role_verdict-ok (some res) h = elim (Bool-cases res.super_admin) [
      | inl e ↦ (res, refl, e)
      | inr e ↦ cc (rw e at h)
    ]

    require_super_admin_role-ok :
        (c : Option UserContext)
        → require_super_admin_role env opa c ≡ ok tt
        → (u : UserContext) × (c ≡ some u) × HasRole u.email
    unfolding require_super_admin_role
    require_super_admin_role-ok c h = elim (Option-cases (caller env c)) [
      | inl missing ↦ cc (rw (missing, require_super_admin_role) at h)
      | inr (email, there) ↦
          let (u, e, same) = caller-some env c email there in
          (
            u,
            e,
            subst HasRole (sym same)
                (role_verdict-ok _ (rw (there, require_super_admin_role, no_bypass) at h)),
          )
    ]

    group_verdict-ok :
        (required : List String) (r : Option UserRbacInfo) (info : UserRbacInfo)
        → group_verdict env opa required r ≡ ok info
        → (i : UserRbacInfo) × (r ≡ some i) × (has_any_group env i.groups required ≡ true)
    unfolding group_verdict
    group_verdict-ok required none info h = cc
    group_verdict-ok required (some i) info h =
        elim (Bool-cases (has_any_group env i.groups required)) [
          | inl e ↦ (i, refl, e)
          | inr e ↦ cc (rw e at h)
        ]

    require_named_group-ok :
        (required : List String) (c : Option UserContext) (info : UserRbacInfo)
        → require_named_group env opa required c ≡ ok info
        → (u : UserContext) × (c ≡ some u) × IsInGroup required u.email
    unfolding require_named_group has_any_group
    require_named_group-ok required c info h = elim (Option-cases (caller env c)) [
      | inl missing ↦ cc (rw (missing, require_named_group) at h)
      | inr (email, there) ↦
          let (u, e, same) = caller-some env c email there in
          (
            u,
            e,
            subst (IsInGroup required) (sym same) (
                group_verdict-ok required _ info (rw (there, require_named_group, no_bypass) at h)),
          )
    ]

    then_hook-ok :
        {A B : Type 0} (m : Result ℕ A) (n : Result ℕ B) (b : B)
        → then_hook m n ≡ ok b
        → ((a : A) × (m ≡ ok a)) × (n ≡ ok b)
    then_hook-ok (ok a) n b h = ((a, refl), h)
    then_hook-ok (err s) n b h = cc

    -- Without the bypass for developers: a request gets to the routes that author services and access
    -- rules only with a token that the API server accepts or a session that Kratos accepts, of somebody
    -- whom OPA lists in a group with the name of an administrators' group, and for whom it answers
    -- that the role is super_admin, also where the path would be public.
    pub authoring_route-HasRole :
        (r : Incoming)
        → authoring_route env opa r ≡ ok tt
        → (u : UserContext) × (OfMachine env r u ⊎ OfSession env r u)
          × IsInGroup (admin_groups env) u.email
          × HasRole u.email
    unfolding authoring_route
    authoring_route-HasRole r h =
        let (c, passed, rest) =
          then_with-ok (require_auth env r.path (extract_identity env r)) _ tt h in
        let ((info, named), role) = then_hook-ok _ _ tt rest in
        let (u, is_u, has_role) = require_super_admin_role-ok c role in
        let (v, is_v, in_group) = require_named_group-ok (admin_groups env) c info named in
        let same : v ≡ u = some-injective v u (sym is_v ∙ is_u) in
        let context : (extract_identity env r).user_context ≡ some u =
          sym (require_auth-context env r.path (extract_identity env r) c passed) ∙ is_u in
        (
          u,
          extract_identity-credential env r u no_bypass context,
          subst (λ (x : UserContext). IsInGroup (admin_groups env) x.email) same in_group,
          has_role,
        )

    require_recent_mfa-IsSteppedUp :
        (c : Option UserContext)
        → require_recent_mfa env c ≡ ok tt
        → IsSteppedUp env.now (actor_of env c)
    unfolding require_recent_mfa
    require_recent_mfa-IsSteppedUp c h =
        elim (Bool-cases (step_up_denies env.now (actor_of env c))) [
          | inl e ↦ cc (rw e at h)
          | inr e ↦ step_up-IsSteppedUp env.now (actor_of env c) e
        ]

    not_machine :
        (r : Incoming) (u : UserContext)
        → (u.aal ≡ some "aal2")
        → OfMachine env r u ⊎ OfSession env r u
        → OfSession env r u
    not_machine r u aal (inl (token, p, given, accepted, e)) = cc
    not_machine r u aal (inr session) = session

    -- Without the bypass for developers: a request gets to the route that sets the administrators of an
    -- organisation only with a session that Kratos accepts, at AAL2 that is at most fifteen minutes old,
    -- of somebody whom OPA lists in a group with the name of a super-administrators' group.
    pub org_admins_route-IsSteppedUp :
        (r : Incoming)
        → org_admins_route env opa r ≡ ok tt
        → (u : UserContext) × OfSession env r u
          × IsInGroup (super_admin_groups env) u.email
          × IsSteppedUp env.now (actor_of env (some u))
    unfolding org_admins_route
    org_admins_route-IsSteppedUp r h =
        let (c, passed, rest) =
          then_with-ok (require_auth env r.path (extract_identity env r)) _ tt h in
        let (admin, rest') = then_hook-ok _ _ tt rest in
        let ((info, named), mfa) = then_hook-ok _ _ tt rest' in
        let (u, is_u, in_group) = require_named_group-ok (super_admin_groups env) c info named in
        let stepped : IsSteppedUp env.now (actor_of env (some u)) =
          subst (λ x. IsSteppedUp env.now (actor_of env x)) is_u
            (require_recent_mfa-IsSteppedUp c mfa) in
        let context : (extract_identity env r).user_context ≡ some u =
          sym (require_auth-context env r.path (extract_identity env r) c passed) ∙ is_u in
        (
          u,
          not_machine r u stepped.1 (extract_identity-credential env r u no_bypass context),
          in_group,
          stepped,
        )

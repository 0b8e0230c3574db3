-- ===== src/Access/Tenancy.antt =====
-- Who gets through the guards of an organisation's routes.
use jinbe.Prelude.{
  String, ◌≡◌, refl, subst, ◌⊎◌, inl, inr, true, false, Option, none, some, List, ok, err,
  Bool-cases, Option-cases, includes, is_empty, or_else,
}
use jinbe.Redis.{Redis}
use jinbe.Opa.{Opa, UserRbacInfo, get_user_info, manageable_orgs}
use jinbe.Access.{
  RequestContext, Outcome, identified, get_service_for_org, with_permissions, require_service_admin,
  org_gate, require_manageable_org, require_service_permission, then_guard, organization_route,
  assign_route,
}

module _ (redis : Redis) (opa : Opa) (services : redis.Hash (List String)) where
  -- the service that an organisation stands for
  abbrev pub service_of : String → String
  service_of org = or_else (get_service_for_org redis services org) org

  -- What OPA says of the caller: some permission in the service of the organisation, and then
  -- either the wildcard or that the caller administers this organisation.
  pub record IsEntitled (r : RequestContext) (info : UserRbacInfo) : Type 0 where
    pub email : String
    pub caller : identified r.email ≡ some email
    pub resolved : get_user_info opa email (service_of r.organization_id) ≡ some info
    pub some_permission : is_empty info.permissions ≡ false
    pub reach :
        (includes info.permissions "*" ≡ true)
        ⊎ (includes (manageable_orgs opa email) r.organization_id ≡ true)

  with_permissions-ok :
      (r r' : RequestContext) (o : Option UserRbacInfo)
      → with_permissions redis opa false services r o ≡ ok r'
      → (info : UserRbacInfo) × (o ≡ some info)
        × (is_empty info.permissions ≡ false)
        × (r' ≡ record r { rbac_info = some info })
  unfolding with_permissions
  with_permissions-ok r r' none h = cc
  with_permissions-ok r r' (some info) h = elim (Bool-cases (is_empty info.permissions)) [
    | inl e ↦ cc (rw e at h)
    | inr e ↦ (info, refl, e, cc (rw e at h))
  ]

  require_service_admin-ok :
      (r r' : RequestContext)
      → require_service_admin redis opa false services r ≡ ok r'
      → (email : String) × (info : UserRbacInfo) × (identified r.email ≡ some email)
        × (get_user_info opa email (service_of r.organization_id) ≡ some info)
        × (is_empty info.permissions ≡ false)
        × (r' ≡ record r { rbac_info = some info })
  unfolding require_service_admin
  require_service_admin-ok r r' h = elim (Option-cases (identified r.email)) [
    | inl e ↦ cc (rw (e, require_service_admin) at h)
    | inr (email, e) ↦
        let (info, resolved, full, same) =
          with_permissions-ok r r' _ (rw (e, require_service_admin) at h) in
        (email, info, e, resolved, full, same)
  ]

  org_gate-ok :
      (r r' : RequestContext) (info : UserRbacInfo) (email : String)
      → identified r.email ≡ some email
      → org_gate redis opa false services r info ≡ ok r'
      → (r' ≡ r)
        × ((includes info.permissions "*" ≡ true)
            ⊎ (includes (manageable_orgs opa email) r.organization_id ≡ true))
  unfolding org_gate
  org_gate-ok r r' info email e h = elim (Bool-cases (includes info.permissions "*")) [
    | inl wild ↦ (cc (rw wild at h), inl wild)
    | inr other ↦ elim (Bool-cases (includes (manageable_orgs opa email) r.organization_id)) [
      | inl member ↦ (cc (rw (other, e, member) at h), inr member)
      | inr stranger ↦ cc (rw (other, e, stranger) at h)
    ]
  ]

  then_guard-ok :
      (o : Outcome) (g : RequestContext → Outcome) (r' : RequestContext)
      → then_guard redis opa false services o g ≡ ok r'
      → (r : RequestContext) × (o ≡ ok r) × (g r ≡ ok r')
  unfolding then_guard
  then_guard-ok (err e) g r' h = cc
  then_guard-ok (ok r) g r' h = (r, refl, h)

  -- A request that gets through the guards of an organisation's routes, without the bypass for
  -- developers, is one whose caller OPA entitles to that organisation.
  pub organization_route-IsEntitled :
      (r r' : RequestContext)
      → organization_route redis opa false services r ≡ ok r'
      → (info : UserRbacInfo) × (r' ≡ record r { rbac_info = some info }) × IsEntitled r info
  unfolding organization_route require_manageable_org
  organization_route-IsEntitled r r' h =
      let (q, admitted, scoped) =
        then_guard-ok _ (require_manageable_org redis opa false services) r' h in
      let (email, info, caller, resolved, full, same) = require_service_admin-ok r q admitted in
      let p = record r { rbac_info = some info } in
      let gate : org_gate redis opa false services p info ≡ ok r' =
        subst (λ x. require_manageable_org redis opa false services x ≡ ok r') same scoped in
      let (left, reach) = org_gate-ok p r' info email caller gate in
      (
        info,
        left,
        record {
          email = email;
          caller = caller;
          resolved = resolved;
          some_permission = full;
          reach = reach;
        },
      )

  -- Groups are assigned only by a caller whom OPA entitles to the organisation and gives the
  -- permission for it or the wildcard.
  pub assign_route-IsEntitled :
      (r r' : RequestContext)
      → assign_route redis opa false services r ≡ ok r'
      → (info : UserRbacInfo) × IsEntitled r info
        × ((includes info.permissions "*" ≡ true)
            ⊎ (includes info.permissions "users:assign_group" ≡ true))
  unfolding assign_route require_service_permission
  assign_route-IsEntitled r r' h =
      let (q, passed, allowed) =
        then_guard-ok _ (require_service_permission redis opa false services "users:assign_group")
          r' h in
      let (info, same, entitled) = organization_route-IsEntitled r q passed in
      let at_info : require_service_permission redis opa false services "users:assign_group"
            (record r { rbac_info = some info })
          ≡ ok r' =
        subst
          (λ x. require_service_permission redis opa false services "users:assign_group" x ≡ ok r')
          same allowed in
      (
        info,
        entitled,
        elim (Bool-cases (includes info.permissions "*")) [
          | inl wild ↦ inl wild
          | inr other ↦ elim (Bool-cases (includes info.permissions "users:assign_group")) [
            | inl has ↦ inr has
            | inr lacks ↦ cc (rw (other, lacks) at at_info)
          ]
        ],
      )

  with_permissions-full :
      (r : RequestContext) (info : UserRbacInfo)
      → is_empty info.permissions ≡ false
      → with_permissions redis opa false services r (some info)
        ≡ ok (record r { rbac_info = some info })
  unfolding with_permissions
  with_permissions-full r info h = rw h refl

  require_service_admin-entitled :
      (r : RequestContext) (info : UserRbacInfo)
      → IsEntitled r info
      → require_service_admin redis opa false services r ≡ ok (record r { rbac_info = some info })
  unfolding require_service_admin
  require_service_admin-entitled r info h =
      rw (h.caller, require_service_admin)
        (rw (h.resolved) (with_permissions-full r info h.some_permission))

  org_gate-entitled :
      (r : RequestContext) (info : UserRbacInfo) (email : String)
      → identified r.email ≡ some email
      → (includes info.permissions "*" ≡ true)
        ⊎ (includes (manageable_orgs opa email) r.organization_id ≡ true)
      → org_gate redis opa false services r info ≡ ok r
  unfolding org_gate
  org_gate-entitled r info email e (inl wild) = rw wild refl
  org_gate-entitled r info email e (inr member) =
      elim (Bool-cases (includes info.permissions "*")) [
        | inl wild ↦ rw wild refl
        | inr other ↦ rw (other, e, member, org_gate) refl
      ]

  -- Every caller whom OPA entitles to the organisation gets through its guards.
  pub IsEntitled-organization_route :
      (r : RequestContext) (info : UserRbacInfo)
      → IsEntitled r info
      → organization_route redis opa false services r ≡ ok (record r { rbac_info = some info })
  unfolding organization_route require_manageable_org then_guard
  IsEntitled-organization_route r info h =
      rw (require_service_admin-entitled r info h)
        (org_gate-entitled (record r { rbac_info = some info }) info h.email h.caller h.reach)

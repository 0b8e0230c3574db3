-- ===== src/Rbac/Power.antt =====
-- The predicates on group power against a description of what a group confers.
use jinbe.Prelude.{
  String, ◌≡◌, ◌≢◌, ◌↔◌, refl, Bool, true, false, not, ◌&&◌, ◌||◌, ◌==◌, eq_iff, Option, some, List,
  [], ◌∷◌, arith, or_else, includes, any, is_empty, lookup, Bool-cases, Option-cases, inl, inr, ◌⊎◌,
  if◌then◌else◌,
}
use jinbe.Redis.{Redis}
use jinbe.Rbac.{
  RbacStore, GroupDefinition, FlatRolesMap, get_group, get_roles, role_is_wildcard, any_wildcard,
  def_grants_global_power, any_service_wildcard, admin_power_of, group_grants_admin_power,
  is_empty_group,
}

-- `(svc, roles)` stands among the entries.
pub data Binds (svc : String) (roles : List String) : GroupDefinition → Type 0 where
  here : {def : GroupDefinition} → Binds svc roles ((svc, roles) ∷ def)
  there :
      {e : String × List String} {def : GroupDefinition}
      → Binds svc roles def
      → Binds svc roles (e ∷ def)

any_role :
    (m : FlatRolesMap) (roles : List String)
    → any (role_is_wildcard m) roles ≡ true
    → (role : String) × (includes roles role ≡ true) × (role_is_wildcard m role ≡ true)
any_role m [] h = cc
any_role m (r ∷ roles) h = elim (Bool-cases (role_is_wildcard m r)) [
  | inl e ↦ (r, ground (arith, eq_iff r r), e)
  | inr e ↦ let (role, listed, wild) = any_role m roles (rw e at h) in (role, ground arith, wild)
]

role_any :
    (m : FlatRolesMap) (roles : List String) (role : String)
    → includes roles role ≡ true
    → role_is_wildcard m role ≡ true
    → any (role_is_wildcard m) roles ≡ true
role_any m [] role listed wild = cc
role_any m (r ∷ roles) role listed wild = ground (arith, eq_iff r role, role_any m roles role)

not_empty :
    (roles : List String) (role : String) → includes roles role ≡ true → is_empty roles ≡ false
not_empty [] role h = cc
not_empty (r ∷ roles) role h = refl

module _ (redis : Redis) (s : RbacStore redis) where
  -- A role of the list resolves to "*" in the roles map of the service.
  pub record HasWildcard (svc : String) (roles : List String) : Type 0 where
    pub role_map : FlatRolesMap
    pub role : String
    pub defined : get_roles redis s svc ≡ some role_map
    pub listed : includes roles role ≡ true
    pub wildcard : includes (or_else (lookup role role_map) []) "*" ≡ true

  any_wildcard_iff :
      (svc : String) (roles : List String)
      → (any_wildcard (get_roles redis s svc) roles ≡ true) ↔ HasWildcard svc roles
  any_wildcard_iff svc roles = (
    (λ h. elim (Option-cases (get_roles redis s svc)) [
      | inl missing ↦ cc (rw missing at h)
      | inr (m, defined) ↦
          let (role, listed, wild) = any_role m roles (rw defined at h) in
          record { role_map = m; role = role; defined = defined; listed = listed; wildcard = wild }
    ]),
    λ w. rw w.defined (role_any w.role_map roles w.role w.listed w.wildcard),
  )

  -- What a definition confers beyond its services: the literal role super_admin, or a global role
  -- that resolves to "*".
  abbrev pub HasGlobalPower : GroupDefinition → Type 0
  HasGlobalPower def =
      (includes (or_else (lookup "global" def) []) "super_admin" ≡ true)
      ⊎ HasWildcard "global" (or_else (lookup "global" def) [])

  global_test :
      (m : Option FlatRolesMap) (gs : List String)
      → (if is_empty gs
          then false
          else if includes gs "super_admin"
          then true
          else any_wildcard m gs)
        ≡ (includes gs "super_admin" || any_wildcard m gs)
  global_test m gs = ground arith

  def_grants_global_power_iff :
      (def : GroupDefinition) → (def_grants_global_power redis s def ≡ true) ↔ HasGlobalPower def
  unfolding def_grants_global_power
  def_grants_global_power_iff def =
      let gs : List String = or_else (lookup "global" def) [] in
      let wild = any_wildcard_iff "global" gs in
      rw global_test (
        (λ h. elim (Bool-cases (includes gs "super_admin")) [
          | inl e ↦ inl e
          | inr e ↦ inr (wild.0 (rw e at h))
        ]),
        λ h. elim h [ inl e ↦ rw e | inr w ↦ ground (arith, wild.1 w) ],
      )

  -- Some role that the definition binds in a service resolves to "*" there.
  pub record HasServiceWildcard (def : GroupDefinition) : Type 0 where
    pub svc : String
    pub roles : List String
    pub bound : Binds svc roles def
    pub not_global : svc ≢ "global"
    pub wild : HasWildcard svc roles

  service_here :
      (svc : String) (roles : List String)
      → (not (svc == "global") && not (is_empty roles) && any_wildcard (get_roles redis s svc) roles
          ≡ true)
        ↔ ((svc ≢ "global") × HasWildcard svc roles)
  service_here svc roles =
      let wild = any_wildcard_iff svc roles in
      (
        (λ h. (ground (arith, eq_iff svc "global"), wild.0 (ground arith))),
        λ (other, w).
            ground (arith, eq_iff svc "global", wild.1 w, not_empty roles w.role w.listed),
      )

  -- The loop's test of one entry.
  abbrev entry_test : String → List String → Bool
  entry_test svc roles =
      not (svc == "global") && not (is_empty roles) && any_wildcard (get_roles redis s svc) roles

  wildcard_there :
      {e : String × List String} {def : GroupDefinition}
      → HasServiceWildcard def
      → HasServiceWildcard (e ∷ def)
  wildcard_there w = record {
    svc = w.svc;
    roles = w.roles;
    bound = there w.bound;
    not_global = w.not_global;
    wild = w.wild;
  }

  any_service_wildcard_sound :
      (def : GroupDefinition) → any_service_wildcard redis s def ≡ true → HasServiceWildcard def
  unfolding any_service_wildcard
  any_service_wildcard_sound [] h = cc
  any_service_wildcard_sound ((svc, roles) ∷ def) h = elim (Bool-cases (entry_test svc roles)) [
    | inl e ↦
        let (other, wild) = (service_here svc roles).0 e in
        record { svc = svc; roles = roles; bound = here; not_global = other; wild = wild }
    | inr e ↦ wildcard_there (any_service_wildcard_sound def (rw e at h))
  ]

  any_service_wildcard_complete :
      (def : GroupDefinition) (svc : String) (roles : List String)
      → Binds svc roles def
      → svc ≢ "global"
      → HasWildcard svc roles
      → any_service_wildcard redis s def ≡ true
  unfolding any_service_wildcard
  any_service_wildcard_complete [] svc roles b other w = elim b [ ]
  any_service_wildcard_complete ((svc', roles') ∷ def) svc roles here other w =
      rw ((service_here svc roles).1 (other, w))
  any_service_wildcard_complete ((svc', roles') ∷ def) svc roles (there b) other w =
      ground (arith, any_service_wildcard_complete def svc roles b other w)

  -- A group has admin power exactly when it is defined and its definition binds the literal global
  -- role super_admin, a global role that resolves to "*", or a role of a service that resolves to
  -- "*" in that service.
  pub group_grants_admin_power_iff :
      (name : String)
      → (group_grants_admin_power redis s name ≡ true) ↔ (
          (def : GroupDefinition) × (get_group redis s name ≡ some def)
          × (HasGlobalPower def ⊎ HasServiceWildcard def))
  unfolding group_grants_admin_power
  group_grants_admin_power_iff name = (sound, complete)
    where
      sound :
          group_grants_admin_power redis s name ≡ true
          → (def : GroupDefinition) × (get_group redis s name ≡ some def)
            × (HasGlobalPower def ⊎ HasServiceWildcard def)
      sound h = elim (Option-cases (get_group redis s name)) [
        | inl missing ↦ cc (rw (missing, admin_power_of) at h)
        | inr (def, defined) ↦ elim (Bool-cases (def_grants_global_power redis s def)) [
          | inl e ↦ (def, defined, inl ((def_grants_global_power_iff def).0 e))
          | inr e ↦ (def, defined, inr (any_service_wildcard_sound def (ground arith)))
        ]
      ]

      complete :
          (def : GroupDefinition) × (get_group redis s name ≡ some def)
            × (HasGlobalPower def ⊎ HasServiceWildcard def)
          → group_grants_admin_power redis s name ≡ true
      complete (def, defined, inl g) = ground (arith, (def_grants_global_power_iff def).1 g)
      complete (def, defined, inr w) =
          ground
            (arith, any_service_wildcard_complete def w.svc w.roles w.bound w.not_global w.wild)

  any_bound :
      (def : GroupDefinition)
      → any (λ (svc, roles). not (is_empty roles)) def ≡ false
      → (or_else (lookup "global" def) [] ≡ []) × (any_service_wildcard redis s def ≡ false)
  unfolding any_service_wildcard
  any_bound [] h = (refl, refl)
  any_bound ((svc, []) ∷ def) h = ground (arith, any_bound def h)
  any_bound ((svc, r ∷ roles) ∷ def) h = cc

  -- The exemption of the base group is harmless: a group that confers nothing has no admin power.
  pub is_empty_group-group_grants_admin_power :
      (name : String)
      → is_empty_group redis s name ≡ true
      → group_grants_admin_power redis s name ≡ false
  unfolding is_empty_group group_grants_admin_power def_grants_global_power
  is_empty_group-group_grants_admin_power name h = elim (Option-cases (get_group redis s name)) [
    | inl missing ↦ rw (missing, admin_power_of)
    | inr (def, defined) ↦ ground (arith, any_bound def (ground arith))
  ]

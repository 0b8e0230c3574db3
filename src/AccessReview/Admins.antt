-- ===== src/AccessReview/Admins.antt =====
-- The access review of src/services/access-review.service.ts against the predicate on admin power of
-- src/services/rbac.service.ts: what the passes over groups and roles add up to.
use jinbe.Prelude.{
  String, ◌≡◌, refl, sym, ap, subst, ◌∙◌, inl, inr, Bool, false, not, ◌&&◌, ◌||◌, ◌==◌, eq_iff,
  Bool-cases, Option, Option-cases, none, some, List, [], ◌∷◌, or_else, includes, any, is_empty,
  lookup, arith, add_element, add_elements,
}
use jinbe.Redis.{Redis}
use jinbe.Rbac.{
  RbacStore, GroupDefinition, FlatRolesMap, get_group, get_roles, role_is_wildcard, any_wildcard,
  def_grants_global_power, any_service_wildcard, group_grants_admin_power,
}
use jinbe.AccessReview.{GroupPower, no_power, classify_role, classify_roles, classify, classified}

is_empty-add_element : (s : String) (set : List String) → is_empty (add_element s set) ≡ false
is_empty-add_element s [] = refl
is_empty-add_element s (x ∷ set) = ground arith

pub is_empty-add_elements :
    (ss set : List String) → is_empty (add_elements ss set) ≡ (is_empty ss && is_empty set)
is_empty-add_elements [] set = ground arith
is_empty-add_elements (s ∷ ss) set =
    is_empty-add_elements ss (add_element s set) ∙ ground (arith, is_empty-add_element s set)

-- the literal role super_admin, or a role that resolves to "*"
abbrev grants_global : FlatRolesMap → String → Bool
grants_global m role = role == "super_admin" || role_is_wildcard m role

module _ (name svc : String) where
  classify_role-global :
      (is_wild : Bool) (role : String) (gp : GroupPower)
      → (classify_role name svc is_wild role gp).global_power
        ≡ (gp.global_power || (svc == "global" && (role == "super_admin" || is_wild)))
  unfolding classify_role
  classify_role-global is_wild role gp = ground arith

  classify_role-wildcard :
      (is_wild : Bool) (role : String) (gp : GroupPower)
      → is_empty (classify_role name svc is_wild role gp).wildcard_services
        ≡ (is_empty gp.wildcard_services && not (not (svc == "global") && is_wild))
  unfolding classify_role
  classify_role-wildcard is_wild role gp =
      ground (arith, is_empty-add_element svc gp.wildcard_services)

  classify_roles-global :
      (m : FlatRolesMap) (roles : List String) (gp : GroupPower)
      → (classify_roles name svc m roles gp).global_power
        ≡ (gp.global_power || (svc == "global" && any (grants_global m) roles))
  unfolding classify_roles
  classify_roles-global m [] gp = ground arith
  classify_roles-global m (role ∷ roles) gp =
      classify_roles-global m roles (classify_role name svc (role_is_wildcard m role) role gp)
      ∙ ground (arith, classify_role-global (role_is_wildcard m role) role gp)

  classify_roles-wildcard :
      (m : FlatRolesMap) (roles : List String) (gp : GroupPower)
      → is_empty (classify_roles name svc m roles gp).wildcard_services ≡ (
          is_empty gp.wildcard_services
          && not (not (svc == "global") && any (role_is_wildcard m) roles))
  unfolding classify_roles
  classify_roles-wildcard m [] gp = ground arith
  classify_roles-wildcard m (role ∷ roles) gp =
      classify_roles-wildcard m roles (classify_role name svc (role_is_wildcard m role) role gp)
      ∙ ground (arith, classify_role-wildcard (role_is_wildcard m role) role gp)

any_nothing : (roles : List String) → any (role_is_wildcard []) roles ≡ false
any_nothing [] = refl
any_nothing (r ∷ roles) = any_nothing roles

any-or_else :
    (m : Option FlatRolesMap) (roles : List String)
    → any (role_is_wildcard (or_else m [])) roles ≡ any_wildcard m roles
any-or_else none roles = any_nothing roles
any-or_else (some m) roles = refl

any-grants_global :
    (m : FlatRolesMap) (roles : List String)
    → any (grants_global m) roles ≡ (includes roles "super_admin" || any (role_is_wildcard m) roles)
any-grants_global m [] = refl
any-grants_global m (r ∷ roles) = ground (arith, any-grants_global m roles)

-- A definition has each service once, as an object has its keys.
abbrev pub IsObject : GroupDefinition → Type 0
IsObject [] = Unit
IsObject ((svc, roles) ∷ def) = (lookup svc def ≡ none) × IsObject def

module _ (redis : Redis) (s : RbacStore redis) where
  abbrev global_test : List String → Bool
  global_test roles =
      includes roles "super_admin" || any_wildcard (get_roles redis s "global") roles

  -- what the entries for "global" grant
  abbrev global_entries : GroupDefinition → Bool
  global_entries [] = false
  global_entries ((svc, roles) ∷ def) = (svc == "global" && global_test roles) || global_entries def

  global_entries-absent :
      (def : GroupDefinition) → lookup "global" def ≡ none → global_entries def ≡ false
  global_entries-absent [] h = refl
  global_entries-absent ((svc, roles) ∷ def) h = ground (arith, global_entries-absent def)

  any_wildcard-nil : (m : Option FlatRolesMap) → any_wildcard m [] ≡ false
  any_wildcard-nil none = refl
  any_wildcard-nil (some m) = refl

  global_entries-lookup :
      (def : GroupDefinition)
      → IsObject def
      → global_entries def ≡ global_test (or_else (lookup "global" def) [])
  global_entries-lookup [] h = sym (any_wildcard-nil (get_roles redis s "global"))
  global_entries-lookup ((svc, roles) ∷ def) (absent, h) = elim (Bool-cases (svc == "global")) [
    | inl e ↦
        let gone : global_entries def ≡ false =
          global_entries-absent def
            (subst (λ x. lookup x def ≡ none) ((eq_iff svc "global").0 e) absent) in
        rw (e, gone) (ground arith)
    | inr e ↦ rw e (global_entries-lookup def h)
  ]

  def_grants_global_power-entries :
      (def : GroupDefinition)
      → IsObject def
      → def_grants_global_power redis s def ≡ global_entries def
  unfolding def_grants_global_power
  def_grants_global_power-entries def h =
      ground (arith, global_entries-lookup def h, any_wildcard-nil (get_roles redis s "global"))

  entry_global :
      (svc : String) (roles : List String)
      → (svc == "global" && any (grants_global (or_else (get_roles redis s svc) [])) roles)
        ≡ (svc == "global" && global_test roles)
  entry_global svc roles = elim (Bool-cases (svc == "global")) [
    | inl e ↦
        rw (e, (eq_iff svc "global").0 e)
          (any-grants_global (or_else (get_roles redis s "global") []) roles
            ∙ ap (λ w. includes roles "super_admin" || w)
                (any-or_else (get_roles redis s "global") roles))
    | inr e ↦ rw e refl
  ]

  classify-global :
      (name : String) (def : GroupDefinition) (gp : GroupPower)
      → (classify redis s name def gp).global_power ≡ (gp.global_power || global_entries def)
  unfolding classify
  classify-global name [] gp = ground arith
  classify-global name ((svc, roles) ∷ def) gp =
      classify-global name def _
      ∙ ap (λ b. b || global_entries def)
          (classify_roles-global name svc (or_else (get_roles redis s svc) []) roles gp
            ∙ ap (λ b. gp.global_power || b) (entry_global svc roles))
      ∙ ground arith

  entry_wildcard :
      (svc : String) (roles : List String)
      → (not (svc == "global") && any (role_is_wildcard (or_else (get_roles redis s svc) [])) roles)
        ≡ (not (svc == "global")
            && not (is_empty roles)
            && any_wildcard (get_roles redis s svc) roles)
  entry_wildcard svc [] = ground arith
  entry_wildcard svc (r ∷ roles) =
      ap (λ b. not (svc == "global") && b) (any-or_else (get_roles redis s svc) (r ∷ roles))
      ∙ ground arith

  classify-wildcard :
      (name : String) (def : GroupDefinition) (gp : GroupPower)
      → is_empty (classify redis s name def gp).wildcard_services
        ≡ (is_empty gp.wildcard_services && not (any_service_wildcard redis s def))
  unfolding classify any_service_wildcard
  classify-wildcard name [] gp = ground arith
  classify-wildcard name ((svc, roles) ∷ def) gp =
      classify-wildcard name def _
      ∙ ap (λ b. b && not (any_service_wildcard redis s def))
          (classify_roles-wildcard name svc (or_else (get_roles redis s svc) []) roles gp
            ∙ ap (λ b. is_empty gp.wildcard_services && not b) (entry_wildcard svc roles))
      ∙ ground arith

  -- the power of a group, as the review sees it
  abbrev pub confers : Option GroupPower → Bool
  confers none = false
  confers (some gp) = gp.global_power || not (is_empty gp.wildcard_services)

  pub confers-classified :
      (g : String)
      → ((def : GroupDefinition) → get_group redis s g ≡ some def → IsObject def)
      → confers (classified redis s g (get_group redis s g)) ≡ group_grants_admin_power redis s g
  unfolding group_grants_admin_power
  confers-classified g objects = elim (Option-cases (get_group redis s g)) [
    | inl missing ↦ rw missing refl
    | inr (def, defined) ↦ rw defined (
        ground (
          arith,
          classify-global g def no_power,
          classify-wildcard g def no_power,
          def_grants_global_power-entries def (objects def defined),
        ))
  ]

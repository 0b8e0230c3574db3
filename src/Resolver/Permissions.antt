-- ===== src/Resolver/Permissions.antt =====
-- The permissions that the resolver gives are those that a role of a group of the user has.
use jinbe.Prelude.{
  String, ◌≡◌, refl, ap, ◌∙◌, Bool, true, ◌||◌, ◌==◌, eq_iff, Option, List, [], ◌∷◌, ◌++◌, arith,
  any, includes, Entries, lookup,
}
use jinbe.Redis.{Redis}
use jinbe.Kratos.{Kratos}
use jinbe.Rbac.{GroupDefinition, FlatRolesMap, RbacStore, get_group, get_roles}
use jinbe.Resolver.{
  add_to, add_all, entries_of, resolve_roles, resolve_permissions, resolve_user_rbac,
}

or_assoc : (a b c : Bool) → ((a || b) || c) ≡ (a || (b || c))
or_assoc a b c = ground arith

module _ (f : String → Bool) where
  any-append : (xs ys : List String) → any f (xs ++ ys) ≡ (any f xs || any f ys)
  any-append [] ys = refl
  any-append (x ∷ xs) ys = ground (arith, any-append xs ys)

  includes-any :
      (xs : List String) (a : String) → includes xs a ≡ true → f a ≡ true → any f xs ≡ true
  includes-any [] a h k = cc
  includes-any (x ∷ xs) a h k = ground (arith, eq_iff x a, includes-any xs a)

  any-add_to : (set : List String) (x : String) → any f (add_to set x) ≡ (any f set || f x)
  any-add_to set x = ground (arith, any-append set (x ∷ []), includes-any set x)

  any-add_all : (set xs : List String) → any f (add_all set xs) ≡ (any f set || any f xs)
  any-add_all set [] = ground arith
  any-add_all set (x ∷ xs) =
      any-add_all (add_to set x) xs
      ∙ ap (λ b. b || any f xs) (any-add_to set x)
      ∙ or_assoc (any f set) (f x) (any f xs)

  -- what a test finds in the roles of some groups
  any-resolve_roles :
      (defs : Entries GroupDefinition) (app : String) (groups roles : List String)
      → any f (resolve_roles defs app groups roles) ≡ (
          any f roles
          || any
              (λ g.
                any f (entries_of (lookup g defs) "global")
                || any f (entries_of (lookup g defs) app))
              groups)
  unfolding resolve_roles
  any-resolve_roles defs app [] roles = ground arith
  any-resolve_roles defs app (g ∷ gs) roles =
      let global = entries_of (lookup g defs) "global" in
      let own = entries_of (lookup g defs) app in
      ground (
        arith,
        any-resolve_roles defs app gs (add_all (add_all roles global) own),
        any-add_all (add_all roles global) own,
        any-add_all roles global,
      )

includes-of_any : (xs : List String) (a : String) → includes xs a ≡ any (λ x. x == a) xs
includes-of_any [] a = refl
includes-of_any (x ∷ xs) a = ground (arith, includes-of_any xs a)

module _ (p : String) where
  includes-add_all :
      (set xs : List String) → includes (add_all set xs) p ≡ (includes set p || includes xs p)
  includes-add_all set xs = ground (
    arith,
    includes-of_any (add_all set xs) p,
    includes-of_any set p,
    includes-of_any xs p,
    any-add_all (λ x. x == p) set xs,
  )

  -- A role has the permission, in the global definitions or in those of the application.
  abbrev pub role_has : Option FlatRolesMap → Option FlatRolesMap → String → Bool
  role_has service_roles global_roles role =
      includes (entries_of global_roles role) p || includes (entries_of service_roles role) p

  includes-resolve_permissions :
      (service_roles global_roles : Option FlatRolesMap) (roles permissions : List String)
      → includes (resolve_permissions service_roles global_roles roles permissions) p
        ≡ (includes permissions p || any (role_has service_roles global_roles) roles)
  unfolding resolve_permissions
  includes-resolve_permissions service_roles global_roles [] permissions = ground arith
  includes-resolve_permissions service_roles global_roles (r ∷ rs) permissions =
      let global = entries_of global_roles r in
      let own = entries_of service_roles r in
      ground (
        arith,
        includes-resolve_permissions service_roles global_roles rs
            (add_all (add_all permissions global) own),
        includes-add_all (add_all permissions global) own,
        includes-add_all permissions global,
      )

any-ext : {A : Type 0} (f g : A → Bool) (xs : List A) → ((x : A) → f x ≡ g x) → any f xs ≡ any g xs
any-ext f g [] h = refl
any-ext f g (x ∷ xs) h = ground (arith, h x, any-ext f g xs h)

module _ (redis : Redis) (kratos : Kratos) (s : RbacStore redis) where
  -- A group grants the permission in the application: it binds a role that has it, globally or
  -- for the application.
  abbrev pub grants : String → String → String → Bool
  grants app p group =
      let has = role_has p (get_roles redis s app) (get_roles redis s "global") in
      let def = get_group redis s group in
      any has (entries_of def "global") || any has (entries_of def app)

  -- The resolver gives a user a permission in an application if one of the user's groups binds a
  -- role, globally or for the application, that has the permission, globally or in the
  -- application; and it gives no other permission.
  pub includes-resolve_user_rbac :
      (w : kratos.World) (email app p : String)
      → includes (resolve_user_rbac redis kratos s w email app).permissions p
        ≡ any (grants app p) (resolve_user_rbac redis kratos s w email app).groups
  unfolding resolve_user_rbac
  includes-resolve_user_rbac w email app p =
      let info = resolve_user_rbac redis kratos s w email app in
      let has = role_has p (get_roles redis s app) (get_roles redis s "global") in
      includes-resolve_permissions p (get_roles redis s app) (get_roles redis s "global") info.roles
        []
      ∙ any-resolve_roles has (redis.hgetall GroupDefinition s.groups) app info.groups []
      ∙ any-ext _ (grants app p) info.groups (λ g.
        ap (λ def. any has (entries_of def "global") || any has (entries_of def app))
          (redis.lookup-hgetall GroupDefinition s.groups g))

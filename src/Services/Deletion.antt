-- ===== src/Services/Deletion.antt =====
-- What is left of a service that was deleted.
use jinbe.Prelude.{
  String, ◌≡◌, ◌≢◌, refl, ap, subst, sym, ◌∙◌, ◌⊎◌, inl, inr, true, false, not, ◌&&◌, ◌==◌, eq_iff,
  find?, Option, eq_refl, none, some, List, [], ◌∷◌, ok, All, Bool-cases, Option-cases, is_some,
  if◌then◌else◌, arith, Entries, lookup, erase, lookup-erase,
}
use jinbe.Redis.{Redis}
use jinbe.Rbac.{GroupDefinition, FlatRolesMap, RouteRule, ResourceMetadata, get_roles}
use jinbe.Gateway.{OathkeeperRule, Env}
use jinbe.Services.{service_deleted, health_id, has_rule, without_rule}
use jinbe.Services.Store.{
  publish, Outcome, State, Groups, service_exists, is_system_service, unbind_groups,
}
use jinbe.Services.Posture.{has_id}
use jinbe.Services.Operations.{erase_service, delete_service}

module _ (redis : Redis) (name : String) where
  -- a group that does not bind the service
  abbrev pub IsFree : Groups redis → String → Type 0
  IsFree h g =
      (def : GroupDefinition) → redis.hget GroupDefinition h g ≡ some def → lookup name def ≡ none

  -- the loop has yet to come to the group, which is as it was
  abbrev IsPending : Entries GroupDefinition → Groups redis → Groups redis → String → Type 0
  IsPending entries before h g =
      (is_some (lookup g entries) ≡ true)
      × (redis.hget GroupDefinition h g ≡ redis.hget GroupDefinition before g)

  abbrev step : String → GroupDefinition → Groups redis → Groups redis
  step k def h =
      if is_some (lookup name def) then redis.hset GroupDefinition h k (erase name def) else h

  step-IsFree :
      (k : String) (def : GroupDefinition) (h : Groups redis) (g : String)
      → IsFree h g
      → IsFree (step k def h) g
  step-IsFree k def h g free d e = ground (
    arith,
    free d,
    eq_iff k g,
    lookup-erase name name def,
    eq_refl name,
    redis.hget-hset GroupDefinition h k g (erase name def),
  )

  step-here :
      (def : GroupDefinition) (h : Groups redis) (g : String)
      → redis.hget GroupDefinition h g ≡ some def
      → IsFree (step g def h) g
  step-here def h g held d e = ground (
    arith,
    held,
    eq_refl g,
    lookup-erase name name def,
    eq_refl name,
    redis.hget-hset GroupDefinition h g g (erase name def),
  )

  unbind_groups-IsFree :
      (entries : Entries GroupDefinition) (before h : Groups redis) (g : String)
      → All (λ (k, v). redis.hget GroupDefinition before k ≡ some v) entries
      → IsFree h g ⊎ IsPending entries before h g
      → IsFree (unbind_groups redis name entries h) g
  unfolding unbind_groups
  unbind_groups-IsFree [] before h g held (inl free) = free
  unbind_groups-IsFree [] before h g held (inr (listed, same)) = cc
  unbind_groups-IsFree ((k, v) ∷ es) before h g (e, held) (inl free) =
      unbind_groups-IsFree es before (step k v h) g held (inl (step-IsFree k v h g free))
  unbind_groups-IsFree ((k, v) ∷ es) before h g (e, held) (inr (listed, same)) =
      elim (Bool-cases (k == g)) [
        | inl here ↦
            let at : k ≡ g = (eq_iff k g).0 here in
            unbind_groups-IsFree es before (step k v h) g held (
              inl (
                subst (λ x. IsFree (step x v h) g) (sym at)
                  (step-here v h g
                    (same ∙ subst (λ x. redis.hget GroupDefinition before x ≡ some v) at e))))
        | inr later ↦ unbind_groups-IsFree es before (step k v h) g held (
            inr (
              rw later at listed,
              ground (arith, same, later, redis.hget-hset GroupDefinition h k g (erase name v)),
            ))
      ]

has_rule-without_rule :
    (j id : String) (rules : List OathkeeperRule)
    → has_rule id (without_rule j rules) ≡ (not (j == id) && has_rule id rules)
has_rule-without_rule j id [] = ground arith
has_rule-without_rule j id (r ∷ rules) =
    ground (arith, has_rule-without_rule j id rules, eq_iff r.id j, eq_iff r.id id, eq_iff j id)

-- Nothing of the service is left but what the organisations are mapped to.
pub record IsGone (redis : Redis) (name : String) (s : State redis) : Type 0 where
  pub unregistered : service_exists redis s name ≡ false
  pub unbound : (g : String) → IsFree redis name s.store.groups g
  pub no_roles : get_roles redis s.store name ≡ none
  pub no_route_map : redis.hget (List RouteRule) s.store.route_map name ≡ none
  pub no_metadata : redis.hget ResourceMetadata s.store.services_meta name ≡ none
  pub no_rule : has_rule name s.rules ≡ false
  pub no_health_rule : has_rule (health_id name) s.rules ≡ false

abbrev pub binding_in : String → Option GroupDefinition → Option (Option (List String))
binding_in other none = none
binding_in other (some def) = some (lookup other def)

-- A service of another name has in `t` what it has in `s`: every group that was defined is still
-- defined, with the same roles in the service, and there is no new one.
pub record IsUntouched (redis : Redis) (other : String) (s t : State redis) : Type 0 where
  pub same_registration : service_exists redis t other ≡ service_exists redis s other
  pub same_roles : get_roles redis t.store other ≡ get_roles redis s.store other
  pub same_route_map :
      redis.hget (List RouteRule) t.store.route_map other
      ≡ redis.hget (List RouteRule) s.store.route_map other
  pub same_metadata :
      redis.hget ResourceMetadata t.store.services_meta other
      ≡ redis.hget ResourceMetadata s.store.services_meta other
  pub same_bindings :
      (g : String)
      → binding_in other (redis.hget GroupDefinition t.store.groups g)
        ≡ binding_in other (redis.hget GroupDefinition s.store.groups g)

find?-without_rule :
    (j id : String) (rules : List OathkeeperRule)
    → id ≢ j
    → find? (has_id id) (without_rule j rules) ≡ find? (has_id id) rules
find?-without_rule j id [] n = refl
find?-without_rule j id (r ∷ rules) n = elim (Bool-cases (r.id == j)) [
  | inl here ↦
      let other : (r.id == id) ≡ false = ground (arith, eq_iff r.id j, eq_iff r.id id, n) in
      rw (here, other) (find?-without_rule j id rules n)
  | inr there ↦ elim (Bool-cases (r.id == id)) [
    | inl this ↦ rw (there, this) refl
    | inr other ↦ rw (there, other) ((find?-without_rule j id rules n))
  ]
]

module _ (redis : Redis) (name other : String) (n : other ≢ name) (before : Groups redis) where
  step-binding_in :
      (k : String) (def : GroupDefinition) (h : Groups redis)
      → redis.hget GroupDefinition before k ≡ some def
      → ((g : String)
          → binding_in other (redis.hget GroupDefinition h g)
            ≡ binding_in other (redis.hget GroupDefinition before g))
      → (g : String)
      → binding_in other (redis.hget GroupDefinition (step redis name k def h) g)
        ≡ binding_in other (redis.hget GroupDefinition before g)
  step-binding_in k def h held same g = elim (Bool-cases (is_some (lookup name def))) [
    | inr free ↦ rw free (same g)
    | inl bound ↦ rw bound (
        rw (redis.hget-hset GroupDefinition h k g (erase name def)) (elim (Bool-cases (k == g)) [
          | inr later ↦ rw later (same g)
          | inl here ↦
              let held_here : redis.hget GroupDefinition before g ≡ some def =
                subst (λ x. redis.hget GroupDefinition before x ≡ some def) ((eq_iff k g).0 here)
                  held in
              rw (here, held_here)
                (ap some (lookup-erase name other def ∙ ground (arith, eq_iff name other, n)))
        ]))
  ]

  unbind_groups-binding_in :
      (entries : Entries GroupDefinition) (h : Groups redis)
      → All (λ (k, v). redis.hget GroupDefinition before k ≡ some v) entries
      → ((g : String)
          → binding_in other (redis.hget GroupDefinition h g)
            ≡ binding_in other (redis.hget GroupDefinition before g))
      → (g : String)
      → binding_in other (redis.hget GroupDefinition (unbind_groups redis name entries h) g)
        ≡ binding_in other (redis.hget GroupDefinition before g)
  unfolding unbind_groups
  unbind_groups-binding_in [] h held same g = same g
  unbind_groups-binding_in ((k, def) ∷ es) h (e, held) same g =
      unbind_groups-binding_in es (step redis name k def h) held (step-binding_in k def h e same) g

module _ (env : Env) (redis : Redis) (name : String) (s : State redis) where
  abbrev rest : State redis
  rest = publish redis (service_deleted name) (erase_service env redis name s)

  delete_service-rest :
      (s' : State redis) → delete_service env redis name s ≡ (ok tt, s') → rest ≡ s'
  unfolding delete_service
  delete_service-rest s' h = elim (Bool-cases (service_exists redis s name)) [
    | inr missing ↦ cc (rw (delete_service, missing) at h)
    | inl there ↦ elim (Bool-cases (is_system_service redis s name)) [
      | inl system ↦ cc (rw (delete_service, there, system) at h)
      | inr free ↦ ap (λ (o : Outcome redis). o.1) (rw (delete_service, there, free) at h)
    ]
  ]

  erase_service-IsGone : IsGone redis name rest
  unfolding erase_service
  erase_service-IsGone = record {
    unregistered = ground (arith, redis.smembers-srem s.services name name, eq_refl name);
    unbound = λ g.
        unbind_groups-IsFree redis name (redis.hgetall GroupDefinition s.store.groups)
          s.store.groups s.store.groups g (redis.hgetall-hget GroupDefinition s.store.groups)
          (elim (Option-cases (redis.hget GroupDefinition s.store.groups g)) [
            | inl absent ↦ inl (λ def e. cc (absent, e))
            | inr (def, e) ↦
                inr (ap is_some (redis.lookup-hgetall GroupDefinition s.store.groups g ∙ e), refl)
          ]);
    no_roles = ground (arith, redis.hget-hdel FlatRolesMap s.store.roles name name, eq_refl name);
    no_route_map =
        ground (arith, redis.hget-hdel (List RouteRule) s.store.route_map name name, eq_refl name);
    no_metadata =
        ground
          (arith, redis.hget-hdel ResourceMetadata s.store.services_meta name name, eq_refl name);
    no_rule = ground (
      arith,
      has_rule-without_rule (health_id name) name (without_rule name s.rules),
      has_rule-without_rule name name s.rules,
      eq_refl name,
    );
    no_health_rule = ground (
      arith,
      has_rule-without_rule (health_id name) (health_id name) (without_rule name s.rules),
      eq_refl (health_id name),
    );
  }

  erase_service-IsUntouched : (other : String) → other ≢ name → IsUntouched redis other s rest
  unfolding erase_service
  erase_service-IsUntouched other n = record {
    same_registration =
        ground (arith, redis.smembers-srem s.services name other, eq_iff name other, n);
    same_roles =
        ground (arith, redis.hget-hdel FlatRolesMap s.store.roles name other, eq_iff name other, n);
    same_route_map = ground (
      arith,
      redis.hget-hdel (List RouteRule) s.store.route_map name other,
      eq_iff name other,
      n,
    );
    same_metadata = ground (
      arith,
      redis.hget-hdel ResourceMetadata s.store.services_meta name other,
      eq_iff name other,
      n,
    );
    same_bindings =
        unbind_groups-binding_in redis name other n s.store.groups
          (redis.hgetall GroupDefinition s.store.groups) s.store.groups
          (redis.hgetall-hget GroupDefinition s.store.groups) (λ g. refl);
  }

  erase_service-rule :
      (id : String)
      → id ≢ name
      → id ≢ health_id name
      → find? (has_id id) rest.rules ≡ find? (has_id id) s.rules
  unfolding erase_service
  erase_service-rule id n m =
      find?-without_rule (health_id name) id (without_rule name s.rules) m
      ∙ find?-without_rule name id s.rules n

  -- The deletion of a service that succeeds leaves no registration of it, no group that binds it, no
  -- roles, routes or metadata, and neither of its two rules. Other services keep their registration,
  -- roles, routes and metadata, and what each group binds in them; and each rule with another id stays
  -- as it was. So another service keeps its rule unless it is named as the health rule of the deleted
  -- one. What the organisations are mapped to stays as it was, the deleted service included.
  pub delete_service-IsGone :
      (s' : State redis)
      → delete_service env redis name s ≡ (ok tt, s')
      → IsGone redis name s'
        × ((other : String) → other ≢ name → IsUntouched redis other s s')
        × ((id : String)
            → id ≢ name
            → id ≢ health_id name
            → find? (has_id id) s'.rules ≡ find? (has_id id) s.rules)
        × (s'.org_services ≡ s.org_services)
  unfolding erase_service
  delete_service-IsGone s' h =
      subst
        (λ t.
          IsGone redis name t
          × ((other : String) → other ≢ name → IsUntouched redis other s t)
          × ((id : String)
              → id ≢ name
              → id ≢ health_id name
              → find? (has_id id) t.rules ≡ find? (has_id id) s.rules)
          × (t.org_services ≡ s.org_services))
        (delete_service-rest s' h)
        (erase_service-IsGone, erase_service-IsUntouched, erase_service-rule, refl)

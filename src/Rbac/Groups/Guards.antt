-- ===== src/Rbac/Groups/Guards.antt =====
-- What each mutation of a group definition needs, and what it changes.
use jinbe.Prelude.{
  ℕ, String, ◌≡◌, ◌≢◌, true, false, ◌==◌, eq_iff, eq_refl, if◌then◌else◌, Option, none, some, List,
  [], ok, err, arith, or_else, includes, lookup, ◌⊎◌, inl, inr,
}
use jinbe.Redis.{Redis}
use jinbe.Kratos.{Kratos}
use jinbe.Opa.{Opa}
use jinbe.Rbac.{
  RbacStore, GroupDefinition, ResourceMetadata, get_group, get_group_metadata, is_system_group,
  group_grants_global_power, def_grants_global_power, global_power_of,
}
use jinbe.Rbac.SuperAdmin.{IsSuperAdmin, assert_super_admin-IsSuperAdmin}
use jinbe.Rbac.Groups.{
  State, group_exists, grants_super_admin, create_group, update_group, delete_group,
}

module _ (redis : Redis) (kratos : Kratos) (opa : Opa) (actor : Option String)
    (s t : State redis kratos) (name : String) where
  -- Exactly the one definition differs.
  abbrev pub IsDefined : GroupDefinition → Type 0
  IsDefined services =
      (j : String)
      → get_group redis t.store j ≡ (if name == j then some services else get_group redis s.store j)

  -- If `createGroup` succeeds, then no group had the name, the group has the given definition and
  -- every other one is as before, and, where the definition binds the global role super_admin, OPA
  -- answers that the actor is a super_admin.
  pub create_group-IsDefined :
      (services : GroupDefinition)
      → create_group redis kratos opa actor s name services ≡ (ok tt, t)
      → (get_group redis s.store name ≡ none)
        × IsDefined services
        × (grants_super_admin redis kratos services ≡ true → IsSuperAdmin opa actor)
  unfolding create_group
  create_group-IsDefined services h = (
    ground arith,
    λ j. ground (arith, redis.hget-hset GroupDefinition s.store.groups name j services),
    λ grants. assert_super_admin-IsSuperAdmin opa actor (ground arith),
  )

  -- If `updateGroup` succeeds, then the group existed, it has exactly the given definition and
  -- every other one is as before, and, where the group is super_admins, OPA answers that the actor
  -- is a super_admin.
  pub update_group-IsDefined :
      (services : GroupDefinition)
      → update_group redis kratos opa actor s name services ≡ (ok tt, t)
      → (group_exists redis kratos s name ≡ true)
        × IsDefined services
        × (name ≡ "super_admins" → IsSuperAdmin opa actor)
  unfolding update_group
  update_group-IsDefined services h = (
    ground arith,
    λ j. ground (arith, redis.hget-hset GroupDefinition s.store.groups name j services),
    λ same. assert_super_admin-IsSuperAdmin opa actor (ground (arith, eq_iff name "super_admins")),
  )

  -- If `deleteGroup` succeeds, then the group was defined and is no system group, its definition
  -- and its metadata are gone, and those of every other group are as before.
  pub delete_group-removes :
      (cached : Option (List (String × List String)))
      → delete_group redis kratos opa actor s cached name ≡ (ok tt, t)
      → (group_exists redis kratos s name ≡ true)
        × (is_system_group redis s.store name ≡ false)
        × ((j : String)
            → get_group redis t.store j ≡ (if name == j then none else get_group redis s.store j))
        × ((j : String)
            → get_group_metadata redis t.store j
              ≡ (if name == j then none else get_group_metadata redis s.store j))
  unfolding delete_group
  delete_group-removes cached h = (
    ground arith,
    ground arith,
    λ j. ground (arith, redis.hget-hdel GroupDefinition s.store.groups name j),
    λ j. ground (arith, redis.hget-hdel ResourceMetadata s.store.groups_meta name j),
  )

  -- A mutation that fails leaves the configuration and the users as they were.
  pub failure_keeps_state :
      (services : GroupDefinition) (cached : Option (List (String × List String))) (status : ℕ)
      → (create_group redis kratos opa actor s name services ≡ (err status, t))
        ⊎ ((update_group redis kratos opa actor s name services ≡ (err status, t))
            ⊎ (delete_group redis kratos opa actor s cached name ≡ (err status, t)))
      → (t.store ≡ s.store) × (t.directory ≡ s.directory)
  unfolding create_group update_group delete_group
  failure_keeps_state services cached status (inl h) = (ground arith, ground arith)
  failure_keeps_state services cached status (inr (inl h)) = (ground arith, ground arith)
  failure_keeps_state services cached status (inr (inr h)) = (ground arith, ground arith)

literal_global_power :
    (redis : Redis) (s : RbacStore redis) (name : String) (services : GroupDefinition)
    → get_group redis s name ≡ some services
    → includes (or_else (lookup "global" services) []) "super_admin" ≡ true
    → group_grants_global_power redis s name ≡ true
unfolding group_grants_global_power def_grants_global_power
literal_global_power redis s name services defined h = rw (defined, global_power_of) (ground arith)

-- `updateGroup` gives the literal global role super_admin to any existing group but super_admins,
-- whatever OPA says of the actor, and also for an actor with no e-mail.
pub update_group_mints_super_admin :
    (redis : Redis) (kratos : Kratos) (opa : Opa) (actor : Option String) (s : State redis kratos)
    (name : String) (services : GroupDefinition)
    → group_exists redis kratos s name ≡ true
    → name ≢ "super_admins"
    → grants_super_admin redis kratos services ≡ true
    → ((update_group redis kratos opa actor s name services).0 ≡ ok tt)
      × (group_grants_global_power redis
            (update_group redis kratos opa actor s name services).1.store
            name
          ≡ true)
unfolding update_group
update_group_mints_super_admin redis kratos opa actor s name services exists other grants = (
  ground (arith, eq_iff name "super_admins"),
  literal_global_power redis _ name services
      (ground (
        arith,
        eq_iff name "super_admins",
        eq_refl name,
        redis.hget-hset GroupDefinition s.store.groups name name services,
      ))
      grants,
)

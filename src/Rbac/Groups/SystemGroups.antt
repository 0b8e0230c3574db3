-- ===== src/Rbac/Groups/SystemGroups.antt =====
-- No sequence of requests to createGroup, updateGroup and deleteGroup of src/services/rbac.service.ts
-- removes a system group. The import of a bundle, which stores groups of its own, is no such request.
use jinbe.Prelude.{String, ◌≡◌, true, eq_iff, Option, List, [], ◌∷◌, arith}
use jinbe.Redis.{Redis}
use jinbe.Kratos.{Kratos}
use jinbe.Opa.{Opa}
use jinbe.Rbac.{GroupDefinition, ResourceMetadata, is_system_group}
use jinbe.Rbac.Groups.{State, group_exists, create_group, update_group, delete_group}

-- A request of some actor to create, update or delete a group. `cached` is the snapshot of the
-- users that a deletion may find.
pub data Request : Type 0 where
  create update : Option String → String → GroupDefinition → Request
  delete : Option String → Option (List (String × List String)) → String → Request

module _ (redis : Redis) (kratos : Kratos) (opa : Opa) where
  pub handle : State redis kratos → Request → State redis kratos
  handle s (create actor name services) = (create_group redis kratos opa actor s name services).1
  handle s (update actor name services) = (update_group redis kratos opa actor s name services).1
  handle s (delete actor cached name) = (delete_group redis kratos opa actor s cached name).1

  pub serve : State redis kratos → List Request → State redis kratos
  serve s [] = s
  serve s (r ∷ rs) = serve (handle s r) rs

  -- The group is defined, and its metadata say that it is a system group.
  pub record IsProtected (s : State redis kratos) (g : String) : Type 0 where
    pub defined : group_exists redis kratos s g ≡ true
    pub system : is_system_group redis s.store g ≡ true

  module _ (g : String) (s : State redis kratos) (h : IsProtected s g) (actor : Option String)
      (name : String) where
    create-IsProtected :
        (services : GroupDefinition)
        → IsProtected (create_group redis kratos opa actor s name services).1 g
    unfolding create_group is_system_group
    create-IsProtected services =
        ground
          (arith, eq_iff name g, redis.hget-hset GroupDefinition s.store.groups name g services)

    update-IsProtected :
        (services : GroupDefinition)
        → IsProtected (update_group redis kratos opa actor s name services).1 g
    unfolding update_group is_system_group
    update-IsProtected services =
        ground
          (arith, eq_iff name g, redis.hget-hset GroupDefinition s.store.groups name g services)

    delete-IsProtected :
        (cached : Option (List (String × List String)))
        → IsProtected (delete_group redis kratos opa actor s cached name).1 g
    unfolding delete_group is_system_group
    delete-IsProtected cached = ground (
      arith,
      eq_iff name g,
      redis.hget-hdel GroupDefinition s.store.groups name g,
      redis.hget-hdel ResourceMetadata s.store.groups_meta name g,
    )

  handle-IsProtected :
      (g : String) (s : State redis kratos) (r : Request)
      → IsProtected s g
      → IsProtected (handle s r) g
  unfolding handle
  handle-IsProtected g s (create actor name services) h =
      create-IsProtected g s h actor name services
  handle-IsProtected g s (update actor name services) h =
      update-IsProtected g s h actor name services
  handle-IsProtected g s (delete actor cached name) h = delete-IsProtected g s h actor name cached

  -- Through every sequence of requests to create, update and delete groups, of whatever actors: a group
  -- that is defined and marked as a system group stays defined and marked. The import of a bundle is
  -- not among these requests.
  pub serve-IsProtected :
      (g : String) (s : State redis kratos) (rs : List Request)
      → IsProtected s g
      → IsProtected (serve s rs) g
  unfolding serve
  serve-IsProtected g s [] h = h
  serve-IsProtected g s (r ∷ rs) h =
      serve-IsProtected g (handle s r) rs (handle-IsProtected g s r h)

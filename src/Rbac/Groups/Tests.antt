-- ===== src/Rbac/Groups/Tests.antt =====
-- The properties of the group mutations and of the power predicates at a small deployment.
use jinbe.Prelude.{
  String, ◌≡◌, refl, true, false, eq_iff, none, some, List, [], ◌∷◌, ok, ◌==◌, if◌then◌else◌,
}
use jinbe.Rbac.{
  GroupDefinition, is_system_group, get_group, get_group_metadata, group_grants_global_power,
}
use jinbe.Rbac.Groups.{State, group_exists, create_group, update_group, delete_group}
use jinbe.Rbac.Groups.Guards.{delete_group-removes, update_group_mints_super_admin}
use jinbe.Rbac.Groups.SystemGroups.{Request, update, delete, serve, IsProtected, serve-IsProtected}
use jinbe.Samples.{redis, store, kratos, opa, users}

abbrev start : State redis kratos
start = record { store = store; directory = users; events = [] }

abbrev powerful : GroupDefinition
powerful = ("global", "super_admin" ∷ []) ∷ []

abbrev created : State redis kratos
created = (create_group redis kratos opa (some "root@x") start "chiefs" powerful).1

abbrev updated : State redis kratos
updated = (update_group redis kratos opa (some "root@x") start "super_admins" powerful).1

abbrev removed : State redis kratos
removed = (delete_group redis kratos opa none start none "team").1

delete_group-removes_example :
    (group_exists redis kratos start "team" ≡ true)
    × (is_system_group redis store "team" ≡ false)
    × ((j : String)
        → get_group redis removed.store j ≡ (if "team" == j then none else get_group redis store j))
    × ((j : String)
        → get_group_metadata redis removed.store j
          ≡ (if "team" == j then none else get_group_metadata redis store j))
unfolding delete_group is_system_group
delete_group-removes_example =
    delete_group-removes redis kratos opa none start removed "team" none refl

abbrev refused : State redis kratos
refused = (delete_group redis kratos opa none start none "super_admins").1

update_group_mints_super_admin_example :
    ((update_group redis kratos opa none start "team" powerful).0 ≡ ok tt)
    × (group_grants_global_power redis
          (update_group redis kratos opa none start "team" powerful).1.store
          "team"
        ≡ true)
update_group_mints_super_admin_example =
    update_group_mints_super_admin redis kratos opa none start "team" powerful refl
      (λ e. cc ((eq_iff "team" "super_admins").1 e)) refl

abbrev requests : List Request
requests = delete (some "root@x") none "super_admins" ∷ update none "super_admins" [] ∷ []

serve-IsProtected_example :
    IsProtected redis kratos opa (serve redis kratos opa start requests) "super_admins"
unfolding is_system_group
serve-IsProtected_example =
    serve-IsProtected redis kratos opa "super_admins" start requests
      (record { defined = refl; system = refl })

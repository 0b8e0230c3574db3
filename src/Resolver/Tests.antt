-- ===== src/Resolver/Tests.antt =====
-- The resolver for Bob of the team.
use jinbe.Prelude.{◌≡◌, refl, any, includes, [], ◌∷◌}
use jinbe.Kratos.{get_user_groups}
use jinbe.Samples.{redis, store, kratos, users}
use jinbe.Resolver.{resolve_user_rbac}
use jinbe.Resolver.Permissions.{grants, includes-resolve_user_rbac}

bob_in_billing : resolve_user_rbac redis kratos store users "bob@x" "billing" ≡ record {
  email = "bob@x";
  groups = "team" ∷ [];
  roles = "viewer" ∷ [];
  permissions = "invoices:read" ∷ [];
}
unfolding resolve_user_rbac get_user_groups
bob_in_billing = refl

includes-resolve_user_rbac_example :
    includes
      (resolve_user_rbac redis kratos store users "bob@x" "billing").permissions
      "invoices:read"
    ≡ any
        (grants redis kratos store "billing" "invoices:read")
        (resolve_user_rbac redis kratos store users "bob@x" "billing").groups
includes-resolve_user_rbac_example =
    includes-resolve_user_rbac redis kratos store users "bob@x" "billing" "invoices:read"

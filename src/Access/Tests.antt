-- ===== src/Access/Tests.antt =====
-- The guards for the administrator of org-1, who holds the permission to assign groups.
use jinbe.Prelude.{◌≡◌, refl, inr, false, none, some, List, [], ◌∷◌, ok, err, String, Entries}
use jinbe.Samples.{redis}
use jinbe.Samples.{opa}
use jinbe.Opa.{Opa, UserRbacInfo, body, get_user_info, manageable_orgs}
use jinbe.Access.{RequestContext, get_service_for_org, organization_route, assign_route}
use jinbe.Access.Tenancy.{IsEntitled, organization_route-IsEntitled}

abbrev boss : UserRbacInfo
boss = record {
  email = "boss@x";
  groups = "team" ∷ [];
  roles = "org_admin" ∷ [];
  permissions = "users:assign_group" ∷ [];
}

-- OPA gives everyone the permission in billing.
abbrev billing : Opa
billing = record opa {
  user_info = λ email app. body (
      some (record {
        email = email;
        groups = some ("team" ∷ []);
        roles = some ("org_admin" ∷ []);
        permissions = some ("users:assign_group" ∷ []);
      }));
}

abbrev services : Entries (List String)
services = ("org-1", "billing" ∷ []) ∷ ("org-2", "billing" ∷ []) ∷ []

abbrev request : String → RequestContext
request org = record { email = some "boss@x"; organization_id = org; rbac_info = none }

abbrev admitted : RequestContext
admitted = record (request "org-1") { rbac_info = some boss }

-- the sibling organisation of the same service
sibling : organization_route redis billing false services (request "org-2") ≡ err 403
unfolding organization_route get_user_info manageable_orgs
sibling = refl

route-ok : organization_route redis billing false services (request "org-1") ≡ ok admitted
unfolding organization_route get_user_info manageable_orgs
route-ok = refl

assign-ok : assign_route redis billing false services (request "org-1") ≡ ok admitted
unfolding assign_route get_user_info manageable_orgs
assign-ok = refl

organization_route-IsEntitled_example :
    (info : UserRbacInfo) × (admitted ≡ record (request "org-1") { rbac_info = some info })
    × IsEntitled redis billing services (request "org-1") info
organization_route-IsEntitled_example =
    organization_route-IsEntitled redis billing services (request "org-1") admitted route-ok

boss-IsEntitled : IsEntitled redis billing services (request "org-1") boss
unfolding get_service_for_org get_user_info manageable_orgs
boss-IsEntitled = record {
  email = "boss@x";
  caller = refl;
  resolved = refl;
  some_permission = refl;
  reach = inr refl;
}

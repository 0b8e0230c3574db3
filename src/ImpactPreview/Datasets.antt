-- ===== src/ImpactPreview/Datasets.antt =====
-- The two sets of data that a preview of src/services/impact-preview.service.ts compares.
use jinbe.Prelude.{
  String, ◌≡◌, refl, ap, ◌∙◌, ◌==◌, if◌then◌else◌, Option, some, [], ◌∷◌, or_else, Entries, lookup,
  insert, lookup-insert,
}
use jinbe.ImpactPreview.{
  spread, OpaDataset, ProposedChange, Reads, build_current_dataset, merge_proposed,
}

-- The data has what was read, and no organisation of any user.
pub record IsRead (r : Reads) (ds : OpaDataset) : Type 0 where
  pub read_groups : ds.groups ≡ r.groups
  pub read_roles : ds.roles ≡ r.roles
  pub read_routes : ds.route_map ≡ r.route_maps
  pub read_members : ds.group_membership ≡ or_else r.membership []
  pub read_org_services : ds.org_service_map ≡ or_else r.org_service_map []
  pub read_org_admins : ds.org_admin_map ≡ or_else r.org_admin_map []
  pub no_user_organizations : ds.user_organizations ≡ []

-- what the last of the entries has at the key, or else what there was
abbrev pub latest : {V : Type 0} → String → Entries V → Option V → Option V
latest k [] old = old
latest k ((j, v) ∷ m) old = latest k m (if j == k then some v else old)

-- The data has at each key what is proposed there, and else what it had.
pub record IsChanged (ds : OpaDataset) (p : ProposedChange) (next : OpaDataset) : Type 0 where
  pub new_groups : (k : String) → lookup k next.groups ≡ latest k p.groups (lookup k ds.groups)
  pub new_roles : (k : String) → lookup k next.roles ≡ latest k p.roles (lookup k ds.roles)
  pub new_routes :
      (k : String) → lookup k next.route_map ≡ latest k p.route_maps (lookup k ds.route_map)
  pub new_members :
      (k : String)
      → lookup k next.group_membership ≡ latest k p.group_membership (lookup k ds.group_membership)
  pub same_user_organizations : next.user_organizations ≡ ds.user_organizations
  pub same_org_services : next.org_service_map ≡ ds.org_service_map
  pub same_org_admins : next.org_admin_map ≡ ds.org_admin_map

lookup-spread :
    {V : Type 0} (k : String) (a b : Entries V) → lookup k (spread a b) ≡ latest k b (lookup k a)
lookup-spread k a [] = refl
lookup-spread k a ((j, v) ∷ b) =
    lookup-spread k (insert j v a) b ∙ ap (latest k b) (lookup-insert j k v a)

pub build_current_dataset-IsRead : (r : Reads) → IsRead r (build_current_dataset r)
unfolding build_current_dataset
build_current_dataset-IsRead r = record {
  read_groups = refl;
  read_roles = refl;
  read_routes = refl;
  read_members = refl;
  read_org_services = refl;
  read_org_admins = refl;
  no_user_organizations = refl;
}

pub merge_proposed-IsChanged :
    (ds : OpaDataset) (p : ProposedChange) → IsChanged ds p (merge_proposed ds p)
unfolding merge_proposed
merge_proposed-IsChanged ds p = record {
  new_groups = λ k. lookup-spread k ds.groups p.groups;
  new_roles = λ k. lookup-spread k ds.roles p.roles;
  new_routes = λ k. lookup-spread k ds.route_map p.route_maps;
  new_members = λ k. lookup-spread k ds.group_membership p.group_membership;
  same_user_organizations = refl;
  same_org_services = refl;
  same_org_admins = refl;
}

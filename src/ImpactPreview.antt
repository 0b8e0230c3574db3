-- ===== src/ImpactPreview.antt =====
-- src/services/impact-preview.service.ts: who gains or loses access by a change that is proposed. The
-- data that OPA would have, the change, and whom and what it affects. The sample is in Sample, the
-- comparison of the two evaluations in Preview.
pub mod Sample
pub mod Pushes
pub mod Preview
pub mod Datasets
pub mod Exact
pub mod Affected
pub mod Covered
mod Tests
use jinbe.Prelude.{
  ℕ, String, Bool, true, false, not, ◌&&◌, ◌||◌, ◌==◌, if◌then◌else◌, Option, none, some, List, [],
  ◌∷◌, ◌++◌, or_else, includes, any, filter, is_empty, Entries, lookup, insert, keys, add_element,
  add_elements,
}
use jinbe.Rbac.{GroupDefinition, FlatRolesMap, RouteRule}

pub record ProposedChange : Type 0 where
  pub groups : Entries GroupDefinition
  pub roles : Entries FlatRolesMap
  pub route_maps : Entries (List RouteRule)
  pub group_membership : Entries (List String)

pub record OpaDataset : Type 0 where
  pub group_membership : Entries (List String)
  pub groups : Entries GroupDefinition
  pub user_organizations : Entries (List String)
  pub roles : Entries FlatRolesMap
  pub route_map : Entries (List RouteRule)
  pub org_service_map : Entries (List String)
  pub org_admin_map : Entries (List String)

-- what `buildCurrentDataset` reads; a read that fails leaves `none`
pub record Reads : Type 0 where
  pub groups : Entries GroupDefinition
  pub roles : Entries FlatRolesMap
  pub route_maps : Entries (List RouteRule)
  pub membership : Option (Entries (List String))
  pub org_service_map : Option (Entries (List String))
  pub org_admin_map : Option (Entries (List String))

unfoldable pub build_current_dataset : Reads → OpaDataset
build_current_dataset r = record {
  group_membership = or_else r.membership [];
  groups = r.groups;
  user_organizations = [];
  roles = r.roles;
  route_map = r.route_maps;
  org_service_map = or_else r.org_service_map [];
  org_admin_map = or_else r.org_admin_map [];
}

-- `{ ...a, ...b }`
abbrev pub spread : {V : Type 0} → Entries V → Entries V → Entries V
spread a [] = a
spread a ((k, v) ∷ b) = spread (insert k v a) b

unfoldable pub merge_proposed : OpaDataset → ProposedChange → OpaDataset
merge_proposed current p = record current {
  groups = spread current.groups p.groups;
  group_membership = spread current.group_membership p.group_membership;
  roles = spread current.roles p.roles;
  route_map = spread current.route_map p.route_maps;
}

-- whether two definitions have the same JSON text
abbrev pub same_texts : List String → List String → Bool
same_texts [] [] = true
same_texts [] (y ∷ ys) = false
same_texts (x ∷ xs) [] = false
same_texts (x ∷ xs) (y ∷ ys) = x == y && same_texts xs ys

abbrev pub same_definition : GroupDefinition → GroupDefinition → Bool
same_definition [] [] = true
same_definition [] (e ∷ m) = false
same_definition (e ∷ m) [] = false
same_definition ((k, v) ∷ m) ((j, w) ∷ n) = k == j && same_texts v w && same_definition m n

abbrev pub is_unchanged : Option GroupDefinition → GroupDefinition → Bool
is_unchanged none def = false
is_unchanged (some old) def = same_definition old def

module _ (current : OpaDataset) where
  unfoldable pub changed_groups : Entries GroupDefinition → List String
  changed_groups [] = []
  changed_groups ((g, def) ∷ groups) =
      let rest = changed_groups groups in
      if is_unchanged (lookup g current.groups) def then rest else g ∷ rest

  -- the services of the definitions that change, old and new
  unfoldable pub services_of_groups : Entries GroupDefinition → List String → List String
  services_of_groups [] set = set
  services_of_groups ((g, def) ∷ groups) set = services_of_groups groups (
      if is_unchanged (lookup g current.groups) def
      then set
      else add_elements (keys (or_else (lookup g current.groups) [])) (add_elements (keys def) set))

  -- those who are in a group that passes the test
  unfoldable pub members : (List String → Bool) → Entries (List String) → List String → List String
  members test [] set = set
  members test ((email, groups) ∷ rest) set =
      members test rest (if test groups then add_element email set else set)

  unfoldable pub services_of_names : List String → List String → List String
  services_of_names [] set = set
  services_of_names (g ∷ gs) set =
      services_of_names gs (add_elements (keys (or_else (lookup g current.groups) [])) set)

  -- the services that the old and the new groups of a user reach
  unfoldable pub services_of_members : Entries (List String) → List String → List String
  services_of_members [] set = set
  services_of_members ((email, groups) ∷ rest) set = services_of_members rest (
      services_of_names
        (add_elements (or_else (lookup email current.group_membership) []) (add_elements groups []))
        set)

  abbrev pub reaches : List String → List String → Bool
  reaches services groups =
      any
        (λ g.
          any (λ s. s == "global" || includes services s)
            (keys (or_else (lookup g current.groups) [])))
        groups

  unfoldable pub affected_services : ProposedChange → List String
  affected_services p =
      let changed =
        add_elements (keys p.route_maps)
          (add_elements (keys p.roles) (services_of_groups p.groups [])) in
      filter (λ s. not (s == "global")) (services_of_members p.group_membership changed)

  unfoldable pub affected_users : ProposedChange → List String
  affected_users p =
      let direct =
        members (any (includes (changed_groups p.groups))) current.group_membership
          (add_elements (keys p.group_membership) []) in
      if is_empty (keys p.roles) && is_empty (keys p.route_maps)
      then direct
      else members (reaches (keys p.roles ++ keys p.route_maps)) current.group_membership direct

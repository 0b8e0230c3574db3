-- ===== src/AuditDiff/Tests.antt =====
-- Tests of the audit diffs, and their theorems at concrete changes.
use jinbe.Prelude.{String, ◌≡◌, ◌≢◌, ◌↔◌, refl, Option, none, some, List, [], ◌∷◌, includes, lookup}
use jinbe.Rbac.{RouteRule, GroupDefinition, FlatRolesMap}
use jinbe.AuditDiff.{
  AuditChanges, grants_super_admin, opened_to_public, flatten, diff_group_definition, diff_roles,
  diff_user_groups, diff_route_map, route_table, opened,
}
use jinbe.AuditDiff.Texts.{Formats}
use jinbe.AuditDiff.Sets.{IsExact, has_entry, diffs-IsExact}
use jinbe.AuditDiff.Routes.{diff_route_map-flags}

abbrev formats : Formats
formats = record {
  to_upper_case = λ s. s;
  lower_ascii = λ s. s;
  show_number = λ n. "n";
  without_userinfo = λ s. none;
}

abbrev team : GroupDefinition
team = ("billing", "viewer" ∷ "admin" ∷ []) ∷ []

abbrev promoted : GroupDefinition
promoted = ("billing", "viewer" ∷ []) ∷ ("global", "super_admin" ∷ []) ∷ []

abbrev change : AuditChanges
change = diff_group_definition formats "x" (some team) promoted

change_added : change.added ≡ "global:super_admin" ∷ []
unfolding diff_group_definition flatten
change_added = refl

change_flags : change.flags ≡ grants_super_admin ∷ []
unfolding diff_group_definition flatten
change_flags = refl

abbrev reader : FlatRolesMap
reader = ("reader", "invoices:read" ∷ []) ∷ []

diffs-IsExact_example :
    IsExact change (has_entry team) (has_entry promoted)
    × IsExact (diff_roles formats "x" none reader) (has_entry []) (has_entry reader)
    × IsExact
        (diff_user_groups formats "x" ("users" ∷ []) ("team" ∷ []))
        (includes ("users" ∷ []))
        (includes ("team" ∷ []))
diffs-IsExact_example =
    diffs-IsExact formats "x" (some team) promoted none reader ("users" ∷ []) ("team" ∷ [])

abbrev route : String → Option String → RouteRule
route path permission = record { method = "GET"; path = path; permission = permission }

abbrev guarded_routes : List RouteRule
guarded_routes = route "/invoices" (some "invoices:read") ∷ []

abbrev open_route : List RouteRule
open_route = route "/invoices" none ∷ []

diff_route_map-flags_example :
    ((diff_route_map formats "billing" guarded_routes open_route).flags ≡ opened_to_public ∷ []) ↔ (
      (key : String) × (lookup key (route_table formats open_route []) ≡ some "")
      × (lookup key (route_table formats guarded_routes []) ≢ some ""))
diff_route_map-flags_example = diff_route_map-flags formats "billing" guarded_routes open_route

is_flagged :
    (diff_route_map formats "billing" guarded_routes open_route).flags ≡ opened_to_public ∷ []
unfolding diff_route_map route_table opened
is_flagged = refl

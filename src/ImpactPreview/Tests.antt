-- ===== src/ImpactPreview/Tests.antt =====
-- Runs of the preview of src/services/impact-preview.service.ts on a small configuration.
use jinbe.Prelude.{
  ◌≡◌, refl, Bool, true, includes, Option, none, some, List, [], ◌∷◌, any, keys, Entries,
}
use jinbe.Rbac.{GroupDefinition, RouteRule}
use jinbe.ImpactPreview.{
  OpaDataset, ProposedChange, Reads, build_current_dataset, merge_proposed, changed_groups,
  services_of_groups, members, services_of_names, services_of_members, affected_services,
  affected_users,
}
use jinbe.ImpactPreview.Sample.{
  ImpactTuple, AuditRow, tuple_key, tuple_keys, push, push_audit, push_users, push_rules,
  push_services, sample_tuples, probe_path,
}
use jinbe.ImpactPreview.Preview.{Override, preview, sample_of}
use jinbe.ImpactPreview.Datasets.{IsRead, IsChanged}
use jinbe.ImpactPreview.Exact.{data_with, preview-right, right_preview, rows_of}
use jinbe.ImpactPreview.Covered.{sample_of-covers, probe}

abbrev show_report : RouteRule
show_report = record { method = "GET"; path = "/api/reports/:id"; permission = none }

abbrev stored : Reads
stored = record {
  groups = ("team", []) ∷ [];
  roles = [];
  route_maps = ("reports", show_report ∷ []) ∷ [];
  membership = some (("ana@x.io", "team" ∷ []) ∷ []);
  org_service_map = none;
  org_admin_map = none;
}

-- the group gets the role of a viewer in the service
abbrev viewer : GroupDefinition
viewer = ("reports", "viewer" ∷ []) ∷ []

abbrev edit : ProposedChange
edit = record { groups = ("team", viewer) ∷ []; roles = []; route_maps = []; group_membership = [] }

abbrev seen : Option (List AuditRow)
seen =
    some
      (record { who = some "bob@x.io"; method = some "GET"; path = some "/api/jobs?page=2" } ∷ [])

-- a policy that allows those who are in a group with the service
abbrev allows : OpaDataset → ImpactTuple → Bool
allows ds t = any (λ e. includes (keys e.1) "reports") ds.groups

-- an OPA without data of its own
abbrev bare : OpaDataset
bare = record {
  group_membership = [];
  groups = [];
  user_organizations = [];
  roles = [];
  route_map = [];
  org_service_map = [];
  org_admin_map = [];
}

abbrev answers : List Override → List ImpactTuple → Option (Entries Bool)
answers os ts = some (rows_of (allows (data_with os bare)) ts)

preview-right_example :
    (current : OpaDataset) × (next : OpaDataset) × IsRead stored current
    × IsChanged current edit next
    × (preview answers stored seen edit
        ≡ right_preview (allows current) (allows next) (sample_of seen current edit))
preview-right_example = preview-right answers bare allows stored seen edit (λ os ts. refl)

sample_of-covers_example :
    includes
      (tuple_keys (sample_of seen (build_current_dataset stored) edit))
      (tuple_key (probe show_report "ana@x.io"))
    ≡ true
unfolding build_current_dataset merge_proposed changed_groups services_of_groups members
    services_of_names services_of_members affected_services affected_users push push_audit
    push_users push_rules push_services sample_tuples probe_path
sample_of-covers_example =
    sample_of-covers (build_current_dataset stored) edit seen "team" "ana@x.io" "reports" viewer
      ("team" ∷ []) show_report [] (show_report ∷ []) refl refl refl refl refl refl refl refl

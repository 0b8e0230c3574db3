-- ===== src/ImpactPreview/Preview.antt =====
-- The evaluation of a sample and the comparison of the two evaluations in
-- src/services/impact-preview.service.ts. What OPA answers to a query with its
-- overrides is a parameter.
use jinbe.Prelude.{
  String, ℕ, suc, Bool, true, false, if◌then◌else◌, same_number, Option, none, some, List, [], ◌∷◌,
  map, or_else, is_empty, length, Entries, lookup, insert,
}
use jinbe.Rbac.{GroupDefinition, FlatRolesMap, RouteRule}
use jinbe.ImpactPreview.{
  OpaDataset, ProposedChange, Reads, build_current_dataset, merge_proposed, affected_users,
  affected_services,
}
use jinbe.ImpactPreview.Sample.{ImpactTuple, AuditRow, tuple_key, sample_tuples}

pub record ImpactFlip : Type 0 where
  pub request : ImpactTuple
  pub before : Bool
  pub after : Bool

pub record Comparison : Type 0 where
  pub losses : List ImpactFlip
  pub gains : List ImpactFlip
  pub unchanged : ℕ

pub record ImpactPreviewResult : Type 0 where
  pub changes : Comparison
  pub total : ℕ
  pub evaluated : Bool

abbrev pub no_flips : Comparison
no_flips = record { losses = []; gains = []; unchanged = 0 }

abbrev pub flip_of : ImpactTuple → Bool → Bool → ImpactFlip
flip_of t b a = record { request = t; before = b; after = a }

-- one turn of the loop, of which the rest is known
abbrev pub compare_one : ImpactTuple → Bool → Bool → Comparison → Comparison
compare_one t true true c = record c { unchanged = suc c.unchanged }
compare_one t false false c = record c { unchanged = suc c.unchanged }
compare_one t true false c = record c { losses = flip_of t true false ∷ c.losses }
compare_one t false true c = record c { gains = flip_of t false true ∷ c.gains }

unfoldable pub compare_all : List ImpactTuple → List Bool → List Bool → Comparison
compare_all (t ∷ ts) (b ∷ before) (a ∷ after) = compare_one t b a (compare_all ts before after)
compare_all _ _ _ = no_flips

-- the map from the key of a row to its verdict
unfoldable pub verdicts : Entries Bool → Entries Bool → Entries Bool
verdicts [] m = m
verdicts ((k, allow) ∷ rows) m = verdicts rows (insert k allow m)

abbrev pub verdict_in : Entries Bool → ImpactTuple → Bool
verdict_in table t = or_else (lookup (tuple_key t) table) false

abbrev pub read_rows : List ImpactTuple → Option (Entries Bool) → Option (List Bool)
read_rows ts none = none
read_rows ts (some rows) =
    if same_number (length rows) (length ts)
    then some (map (verdict_in (verdicts rows [])) ts)
    else none

abbrev pub compared :
    List ImpactTuple → Option (List Bool) → Option (List Bool) → ImpactPreviewResult
compared ts (some before) (some after) = record {
  changes = compare_all ts before after;
  total = length ts;
  evaluated = true;
}
compared ts none after = record { changes = no_flips; total = length ts; evaluated = false }
compared ts (some before) none = record { changes = no_flips; total = length ts; evaluated = false }

abbrev pub sample_of : Option (List AuditRow) → OpaDataset → ProposedChange → List ImpactTuple
sample_of rows current p =
    sample_tuples current (merge_proposed current p) rows (affected_users current p)
      (affected_services current p)

-- the documents of the data that the query puts in place of those that OPA has: `with data.x as …`
pub data Override : Type 0 where
  with_bindings : Entries (List String) → Entries GroupDefinition → Entries (List String) → Override
  with_roles : Entries FlatRolesMap → Override
  with_route_map : Entries (List RouteRule) → Override
  with_org_service_map with_org_admin_map : Entries (List String) → Override

abbrev pub overrides : OpaDataset → List Override
overrides ds =
    with_bindings ds.group_membership ds.groups ds.user_organizations
    ∷ with_roles ds.roles
    ∷ with_route_map ds.route_map
    ∷ with_org_service_map ds.org_service_map
    ∷ with_org_admin_map ds.org_admin_map
    ∷ []

module _ (query : List Override → List ImpactTuple → Option (Entries Bool)) where
  unfoldable pub evaluate : List ImpactTuple → OpaDataset → Option (List Bool)
  evaluate ts ds = read_rows ts (query (overrides ds) ts)

  unfoldable pub preview : Reads → Option (List AuditRow) → ProposedChange → ImpactPreviewResult
  preview reads rows p =
      let current = build_current_dataset reads in
      let ts = sample_of rows current p in
      if is_empty ts
      then record { changes = no_flips; total = 0; evaluated = true }
      else compared ts (evaluate ts current) (evaluate ts (merge_proposed current p))

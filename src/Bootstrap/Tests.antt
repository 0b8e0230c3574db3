-- ===== src/Bootstrap/Tests.antt =====
-- The merge and the upsert at concrete rules.
use jinbe.Prelude.{String, ◌≡◌, refl, some, List, [], ◌∷◌, ◌++◌, Entries}
use jinbe.Samples.{redis}
use jinbe.Rbac.{RouteRule}
use jinbe.Bootstrap.{to_add, merge_jinbe_route_map, missing_variants}
use jinbe.Bootstrap.Merging.{routes_of}

abbrev rule : String → String → RouteRule
rule path p = record { method = "GET"; path = path; permission = some p }

abbrev built_in : List RouteRule
built_in = rule "/a" "admin:read" ∷ rule "/b" "admin:read" ∷ rule "/b" "org:read" ∷ []

-- the operator has made `/a` stricter, and one variant of `/b` is missing
abbrev maps : Entries (List RouteRule)
maps = ("jinbe", rule "/a" "admin:super" ∷ rule "/b" "admin:read" ∷ []) ∷ []

merged :
    routes_of redis (merge_jinbe_route_map redis built_in maps)
    ≡ routes_of redis maps ++ rule "/b" "org:read" ∷ []
unfolding merge_jinbe_route_map to_add missing_variants
merged = refl

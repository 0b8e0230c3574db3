-- ===== src/Bootstrap.antt =====
-- What src/bootstrap does to the stored configuration at each start: the built-in routes of jinbe are
-- merged into its route map (merge-route-map.ts), and the built-in access rules replace those of the
-- same id (upsert-rules.ts).
pub mod Merging
mod Tests
use jinbe.Prelude.{
  String, Bool, true, false, not, ◌&&◌, ◌==◌, if◌then◌else◌, Option, none, some, List, [], ◌∷◌,
  ◌++◌, map, or_else, includes, any, filter, is_empty, append,
}
use jinbe.Redis.{Redis}
use jinbe.Rbac.{RouteRule}
use jinbe.Gateway.{OathkeeperRule}

abbrev pub path_key : RouteRule → String
path_key r = append r.method (append ":" r.path)

abbrev pub perm : RouteRule → String
perm r = or_else r.permission ""

-- `builtInByPath.get(k)`, and the rules of `existingPermsByPath.get(k)`
abbrev pub at_path : String → List RouteRule → List RouteRule
at_path k rules = filter (λ (r : RouteRule). path_key r == k) rules

-- the keys of `builtInByPath`, in the order of insertion
abbrev pub path_keys : List RouteRule → List String
path_keys [] = []
path_keys (r ∷ rules) =
    let rest = filter (λ k. not (k == path_key r)) (path_keys rules) in path_key r ∷ rest

-- a permission at the path that is none of the built-in ones
abbrev pub is_customized : List RouteRule → List RouteRule → Bool
is_customized existing variants =
    any (λ (r : RouteRule). not (includes (map perm variants) (perm r))) existing

-- what is added at one path, of its rules and its built-in variants
unfoldable pub missing_variants : List RouteRule → List RouteRule → List RouteRule
missing_variants existing variants =
    let missing =
      filter (λ (r : RouteRule). not (includes (map perm existing) (perm r))) variants in
    if is_empty existing then variants else if is_customized existing variants then [] else missing

unfoldable pub to_add : List RouteRule → List RouteRule → List String → List RouteRule
to_add existing built_in [] = []
to_add existing built_in (k ∷ ks) =
    missing_variants (at_path k existing) (at_path k built_in) ++ to_add existing built_in ks

module _ (redis : Redis) where
  -- the route maps after the merge; nothing is written if there is nothing to add
  unfoldable pub merge_jinbe_route_map :
      List RouteRule → redis.Hash (List RouteRule) → redis.Hash (List RouteRule)
  merge_jinbe_route_map built_in maps =
      let existing = or_else (redis.hget (List RouteRule) maps "jinbe") [] in
      let added = to_add existing built_in (path_keys built_in) in
      if is_empty added then maps else redis.hset (List RouteRule) maps "jinbe" (existing ++ added)

unfoldable pub upsert_built_in_rules :
    List OathkeeperRule → List OathkeeperRule → List OathkeeperRule
upsert_built_in_rules built_in existing =
    let ids = map (λ (r : OathkeeperRule). r.id) built_in in
    built_in ++ filter (λ (r : OathkeeperRule). not (includes ids r.id)) existing

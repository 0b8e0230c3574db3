-- ===== src/Bootstrap/Merging.antt =====
-- What the merge of the built-in routes adds, and what it leaves to the operator.
use jinbe.Prelude.{
  String, ◌≡◌, refl, ap, subst, sym, ◌∙◌, inl, inr, Bool, true, false, not, ◌&&◌, ◌||◌, ◌==◌,
  eq_iff, List, [], ◌∷◌, ◌++◌, map, or_else, includes, any, filter, is_empty, arith, All,
  All-append, Bool-cases, includes-filter,
}
use jinbe.Redis.{Redis}
use jinbe.Rbac.{RouteRule}
use jinbe.Bootstrap.{
  path_key, perm, at_path, path_keys, is_customized, missing_variants, to_add,
  merge_jinbe_route_map,
}

-- a rule of the path with the permission
abbrev pub has_route : String → String → List RouteRule → Bool
has_route k p rules = any (λ (r : RouteRule). path_key r == k && perm r == p) rules

any-append :
    (p : RouteRule → Bool) (xs ys : List RouteRule) → any p (xs ++ ys) ≡ (any p xs || any p ys)
any-append p [] ys = refl
any-append p (x ∷ xs) ys = ground (arith, any-append p xs ys)

at_path-All : (k : String) (rules : List RouteRule) → All (λ r. path_key r ≡ k) (at_path k rules)
at_path-All k [] = tt
at_path-All k (r ∷ rules) = elim (Bool-cases (path_key r == k)) [
  | inl here ↦ rw here ((eq_iff (path_key r) k).0 here, at_path-All k rules)
  | inr other ↦ rw other (at_path-All k rules)
]

All-filtered :
    (P : RouteRule → Type 0) (p : RouteRule → Bool) (rules : List RouteRule)
    → All P rules
    → All P (filter p rules)
All-filtered P p [] h = tt
All-filtered P p (r ∷ rules) (q, h) = elim (Bool-cases (p r)) [
  | inl here ↦ rw here (q, All-filtered P p rules h)
  | inr other ↦ rw other (All-filtered P p rules h)
]

missing_variants-All :
    (P : RouteRule → Type 0) (existing variants : List RouteRule)
    → All P variants
    → All P (missing_variants existing variants)
unfolding missing_variants
missing_variants-All P existing variants h = elim (Bool-cases (is_empty existing)) [
  | inl new ↦ rw (missing_variants, new) h
  | inr old ↦ elim (Bool-cases (is_customized existing variants)) [
    | inl custom ↦ rw (missing_variants, old, custom) tt
    | inr plain ↦ rw (missing_variants, old, plain) (All-filtered P _ variants h)
  ]
]

not_empty :
    (existing variants : List RouteRule)
    → is_customized existing variants ≡ true
    → is_empty existing ≡ false
not_empty [] variants h = cc
not_empty (r ∷ rs) variants h = refl

customized-missing :
    (existing variants : List RouteRule)
    → is_customized existing variants ≡ true
    → missing_variants existing variants ≡ []
unfolding missing_variants
customized-missing existing variants h =
    rw (missing_variants, not_empty existing variants h, h) refl

at_path-other :
    (j k : String) (rules : List RouteRule)
    → (j == k) ≡ false
    → All (λ r. (path_key r == k) ≡ false) (at_path j rules)
at_path-other j k [] h = tt
at_path-other j k (r ∷ rules) h = elim (Bool-cases (path_key r == j)) [
  | inl here ↦ rw here (ground (arith, eq_iff (path_key r) j, here, h), at_path-other j k rules h)
  | inr other ↦ rw other (at_path-other j k rules h)
]

-- the paths that are left alone
abbrev pub IsCustomized : List RouteRule → List RouteRule → String → Type 0
IsCustomized existing built_in k = is_customized (at_path k existing) (at_path k built_in) ≡ true

to_add-All :
    (existing built_in : List RouteRule) (ks : List String) (k : String)
    → IsCustomized existing built_in k
    → All (λ r. (path_key r == k) ≡ false) (to_add existing built_in ks)
unfolding to_add missing_variants
to_add-All existing built_in [] k h = tt
to_add-All existing built_in (j ∷ ks) k h =
    All-append _ (missing_variants (at_path j existing) (at_path j built_in)) _
      (elim (Bool-cases (j == k)) [
        | inl same ↦
            subst (All (λ r. (path_key r == k) ≡ false))
              (sym (
                customized-missing (at_path j existing) (at_path j built_in)
                  (subst (IsCustomized existing built_in) (sym ((eq_iff j k).0 same)) h)))
              tt
        | inr other ↦
            missing_variants-All _ (at_path j existing) (at_path j built_in)
              (at_path-other j k built_in other)
      ])
      (to_add-All existing built_in ks k h)

-- the permission is among those of the rules
abbrev has_perm : String → List RouteRule → Bool
has_perm p rules = any (λ (r : RouteRule). perm r == p) rules

has_route-at_path :
    (k p : String) (rules : List RouteRule) → has_route k p rules ≡ has_route k p (at_path k rules)
has_route-at_path k p [] = refl
has_route-at_path k p (r ∷ rules) = ground (arith, has_route-at_path k p rules)

includes-perm :
    (p : String) (rules : List RouteRule) (k : String)
    → All (λ r. path_key r ≡ k) rules
    → includes (map perm rules) p ≡ has_route k p rules
includes-perm p [] k h = refl
includes-perm p (r ∷ rules) k (e, h) =
    ground (arith, includes-perm p rules k h, eq_iff (path_key r) k, e)

has_route-filter :
    (k p : String) (names : List String) (rules : List RouteRule)
    → includes names p ≡ false
    → has_route k p (filter (λ (r : RouteRule). not (includes names (perm r))) rules)
      ≡ has_route k p rules
has_route-filter k p names [] h = refl
has_route-filter k p names (r ∷ rules) h = elim (Bool-cases (perm r == p)) [
  | inl same ↦ ground (
    arith,
    has_route-filter k p names rules h,
    ap (includes names) ((eq_iff (perm r) p).0 same),
    h,
  )
  | inr other ↦ ground (arith, has_route-filter k p names rules h, other)
]

-- At a path that the operator has not customized, a built-in variant is there or is missing.
missing_variants-has_route :
    (k p : String) (existing variants : List RouteRule)
    → All (λ r. path_key r ≡ k) existing
    → is_customized existing variants ≡ false
    → has_route k p variants ≡ true
    → (has_route k p existing || has_route k p (missing_variants existing variants)) ≡ true
unfolding missing_variants
missing_variants-has_route k p existing variants at uncut h =
    elim (Bool-cases (is_empty existing)) [
      | inl new ↦ rw (missing_variants, new) (ground (arith, h))
      | inr old ↦ elim (Bool-cases (includes (map perm existing) p)) [
        | inl there ↦ ground (arith, there, includes-perm p existing k at)
        | inr absent ↦
            rw
              (
                missing_variants,
                old,
                uncut,
                has_route-filter k p (map perm existing) variants absent,
              )
              (ground (arith, h))
      ]
    ]

to_add-has_route :
    (existing built_in : List RouteRule) (ks : List String) (k p : String)
    → includes ks k ≡ true
    → has_route k p (missing_variants (at_path k existing) (at_path k built_in)) ≡ true
    → has_route k p (to_add existing built_in ks) ≡ true
unfolding to_add
to_add-has_route existing built_in [] k p i h = cc
to_add-has_route existing built_in (j ∷ ks) k p i h =
    any-append _ (missing_variants (at_path j existing) (at_path j built_in))
      (to_add existing built_in ks)
    ∙ elim (Bool-cases (j == k)) [
      | inl same ↦ ground (
        arith,
        ap (λ x. has_route k p (missing_variants (at_path x existing) (at_path x built_in)))
            ((eq_iff j k).0 same),
        h,
      )
      | inr other ↦ ground (arith, to_add-has_route existing built_in ks k p (rw other at i) h)
    ]

path_keys-includes :
    (k p : String) (rules : List RouteRule)
    → has_route k p rules ≡ true
    → includes (path_keys rules) k ≡ true
path_keys-includes k p [] h = cc
path_keys-includes k p (r ∷ rules) h = ground (
  arith,
  h,
  path_keys-includes k p rules,
  includes-filter (λ x. not (x == path_key r)) (path_keys rules) k,
  eq_iff (path_key r) k,
  eq_iff k (path_key r),
)

to_add_complete :
    (existing built_in : List RouteRule) (k p : String)
    → is_customized (at_path k existing) (at_path k built_in) ≡ false
    → has_route k p built_in ≡ true
    → has_route k p (existing ++ to_add existing built_in (path_keys built_in)) ≡ true
to_add_complete existing built_in k p uncut h =
    let variants = sym (has_route-at_path k p built_in) ∙ h in
    let one =
      missing_variants-has_route k p (at_path k existing) (at_path k built_in)
        (at_path-All k existing) uncut variants in
    any-append _ existing (to_add existing built_in (path_keys built_in))
    ∙ ground (
      arith,
      one,
      has_route-at_path k p existing,
      to_add-has_route existing built_in (path_keys built_in) k p
          (path_keys-includes k p built_in h),
    )

module _ (redis : Redis) where
  -- the route map of jinbe
  abbrev pub routes_of : redis.Hash (List RouteRule) → List RouteRule
  routes_of maps = or_else (redis.hget (List RouteRule) maps "jinbe") []

  append-is_empty : (xs ys : List RouteRule) → is_empty ys ≡ true → xs ≡ xs ++ ys
  append-is_empty [] [] h = refl
  append-is_empty (x ∷ xs) [] h = ap (λ zs. x ∷ zs) (append-is_empty xs [] h)
  append-is_empty xs (y ∷ ys) h = cc

  merge-routes_of :
      (built_in : List RouteRule) (maps : redis.Hash (List RouteRule))
      → routes_of (merge_jinbe_route_map redis built_in maps)
        ≡ routes_of maps ++ to_add (routes_of maps) built_in (path_keys built_in)
  unfolding merge_jinbe_route_map
  merge-routes_of built_in maps =
      let added = to_add (routes_of maps) built_in (path_keys built_in) in
      elim (Bool-cases (is_empty added)) [
        | inl none_new ↦
            rw (merge_jinbe_route_map, none_new) (append-is_empty (routes_of maps) added none_new)
        | inr new ↦
            rw (merge_jinbe_route_map, new)
              (ap (λ o. or_else o [])
                (redis.hget-hset (List RouteRule) maps "jinbe" "jinbe" (routes_of maps ++ added)))
      ]

  -- The merge only appends to the route map of jinbe. At a path that the operator has customized,
  -- where a permission is none of the built-in ones, it adds nothing; at every other path each
  -- built-in route is there afterwards.
  pub merge_jinbe_route_map-appends :
      (built_in : List RouteRule) (maps : redis.Hash (List RouteRule)) (k : String)
      → (added : List RouteRule) × (routes_of (merge_jinbe_route_map redis built_in maps)
          ≡ routes_of maps ++ added)
        × (IsCustomized (routes_of maps) built_in k → All (λ r. (path_key r == k) ≡ false) added)
        × (is_customized (at_path k (routes_of maps)) (at_path k built_in) ≡ false
            → (p : String) → has_route k p built_in ≡ true
            → has_route k p (routes_of (merge_jinbe_route_map redis built_in maps)) ≡ true)
  merge_jinbe_route_map-appends built_in maps k = (
    to_add (routes_of maps) built_in (path_keys built_in),
    merge-routes_of built_in maps,
    to_add-All (routes_of maps) built_in (path_keys built_in) k,
    λ uncut p h.
        ap (has_route k p) (merge-routes_of built_in maps)
        ∙ to_add_complete (routes_of maps) built_in k p uncut h,
  )

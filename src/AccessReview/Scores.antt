-- ===== src/AccessReview/Scores.antt =====
-- The tier, the score and the flags of an identity, and the order of the list, in
-- src/services/access-review.service.ts.
use text.Mathlib.Text.{starts_with}
use jinbe.Prelude.{
  ℕ, zero, suc, ◌+◌, ◌*◌, ◌-◌, String, Bool, true, false, ◌==◌, if◌then◌else◌, ltb, leb, Option,
  none, some, List, [], ◌∷◌, ◌++◌, truthy, ends_with,
}
use jinbe.AccessReview.{GrantPath}

-- BROAD_REACH_MIN, SPRAWL_MIN, DORMANT_MS, MAX_PATHS
abbrev pub broad_reach_min : ℕ
broad_reach_min = 3

abbrev pub sprawl_min : ℕ
sprawl_min = 5

abbrev pub dormant_ms : ℕ
dormant_ms = 2592000000

abbrev pub max_paths : ℕ
max_paths = 24

-- the tier ladder; `none` is below it
unfoldable pub tier_of : Bool → Bool → Bool → ℕ → Option ℕ
tier_of global_power service_wildcard is_org_admin reach =
    if global_power
    then some 0
    else if service_wildcard
    then some 1
    else if is_org_admin
    then some 2
    else if leb broad_reach_min reach
    then some 3
    else none

abbrev pub max : ℕ → ℕ → ℕ
max a b = if leb a b then b else a

unfoldable pub score_for : ℕ → ℕ → ℕ → ℕ → ℕ
score_for zero wildcards orgs reach = 100 + reach
score_for (suc zero) wildcards orgs reach = 60 * max 1 wildcards + reach
score_for (suc (suc zero)) wildcards orgs reach = 40 * max 1 orgs + reach
score_for (suc (suc (suc zero))) wildcards orgs reach = 15 + 3 * reach + reach
score_for (suc (suc (suc (suc n)))) wildcards orgs reach = 0

-- `isDormant`, with the reading of a date
unfoldable pub is_dormant : (String → Option ℕ) → ℕ → Option String → Bool
is_dormant get_time now last_active = elim (truthy last_active) [
  | none ↦ true
  | some date ↦ elim (get_time date) [ none ↦ true | some t ↦ ltb dormant_ms (now - t) ]
]

unfoldable pub path_rank : GrantPath → ℕ
path_rank p =
    if (elim p.service [ none ↦ false | some svc ↦ svc == "global" ])
    then 0
    else if ends_with p.summary "→ *"
    then 1
    else if starts_with p.group "org:"
    then 2
    else 3

-- A stable sort: an element goes before those that do not rank strictly before it.
module _ {A : Type 0} (ranks_before : A → A → Bool) where
  abbrev pub insert_ranked : A → List A → List A
  insert_ranked x [] = x ∷ []
  insert_ranked x (y ∷ ys) =
      let rest = insert_ranked x ys in if ranks_before y x then y ∷ rest else x ∷ y ∷ ys

  abbrev pub sort_ranked : List A → List A
  sort_ranked [] = []
  sort_ranked (x ∷ xs) = insert_ranked x (sort_ranked xs)

abbrev pub take : {A : Type 0} → ℕ → List A → List A
take zero xs = []
take (suc n) [] = []
take (suc n) (x ∷ xs) = x ∷ take n xs

-- `paths.sort(…).slice(0, MAX_PATHS)`
unfoldable pub strongest : List GrantPath → List GrantPath
strongest paths = take max_paths (sort_ranked (λ p q. ltb (path_rank p) (path_rank q)) paths)

-- `if (b) flags.push(f)`
abbrev pub raise : Bool → String → List String → List String
raise b f flags = if b then flags ++ f ∷ [] else flags

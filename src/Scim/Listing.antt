-- ===== src/Scim/Listing.antt =====
-- GET /Users of src/services/scim.service.ts: the walk through the pages of the directory, the filter,
-- and the page that the client asks for.
use jinbe.Prelude.{
  ℕ, zero, suc, ◌-◌, String, Bool, true, false, ◌||◌, ◌==◌, if◌then◌else◌, leb, Option, none, some,
  List, [], ◌∷◌, ◌++◌, map, Result, ok, err, filter, length, is_empty, TextOps,
}
use jinbe.Kratos.{Kratos, Identity, Failure, find_by_email}
use jinbe.Scim.{ScimError, passed_on, ScimUser, to_scim_user, external_id_of}
use jinbe.Scim.Filter.{Attribute, user_name, external_id, parse_filter}

-- an integer of a query
pub data ℤ : Type 0 where
  pos : ℕ → ℤ
  negsuc : ℕ → ℤ

abbrev pub scim_max_results : ℕ
scim_max_results = 200

-- `Math.max(1, startIndex ?? 1)`
abbrev pub start_of : Option ℤ → ℕ
start_of none = 1
start_of (some (pos n)) = if leb n 1 then 1 else n
start_of (some (negsuc n)) = 1

-- `Math.min(200, Math.max(0, count ?? 200))`
abbrev pub count_of : Option ℤ → ℕ
count_of none = scim_max_results
count_of (some (pos n)) = if leb n scim_max_results then n else scim_max_results
count_of (some (negsuc n)) = 0

abbrev pub drop {ℓ} : {A : Type ℓ} → ℕ → List A → List A
drop zero xs = xs
drop (suc n) [] = []
drop (suc n) (x ∷ xs) = drop n xs

abbrev pub take {ℓ} : {A : Type ℓ} → ℕ → List A → List A
take zero xs = []
take (suc n) [] = []
take (suc n) (x ∷ xs) = x ∷ take n xs

-- `xs.slice(from, from + count)`
abbrev pub slice {ℓ} : {A : Type ℓ} → ℕ → ℕ → List A → List A
slice from count xs = take count (drop from xs)

pub record ListOptions : Type 0 where
  pub filter : Option String
  pub start_index : Option ℤ
  pub count : Option ℤ

pub record ListResponse : Type 0 where
  pub total_results : ℕ
  pub start_index : ℕ
  pub items_per_page : ℕ
  pub resources : List ScimUser

abbrev pub to_response : ListOptions → List Identity → ListResponse
to_response opts matched =
    let start_index = start_of opts.start_index in
    let page = slice (start_index - 1) (count_of opts.count) matched in
    record {
      total_results = length matched;
      start_index = start_index;
      items_per_page = length page;
      resources = map to_scim_user page;
    }

abbrev pub has_external_id : String → Identity → Bool
has_external_id value i = elim (external_id_of i) [ none ↦ false | some x ↦ x == value ]

-- `!next || next === pageToken || response.identities.length === 0`
abbrev pub is_last : Option String → Option String → List Identity → Bool
is_last token none is = true
is_last token (some next) is =
    next == "" || (elim token [ none ↦ false | some t ↦ next == t ]) || is_empty is

-- `listIdentities(500, pageToken)`: one page of the directory, and the token of the next
module _ (k : Kratos)
    (list_identities : k.World
      → Option String
      → Result Failure (List Identity × Option String)) where
  unfoldable pub walk : k.World → ℕ → Option String → Result Failure (List Identity)
  walk w zero token = ok []
  walk w (suc pages) token = elim (list_identities w token) [
    | err e ↦ err e
    | ok (is, next) ↦ elim (is_last token next is) [
      | true ↦ ok is
      | false ↦ elim (walk w pages next) [ err e ↦ err e | ok rest ↦ ok (is ++ rest) ]
    ]
  ]

  unfoldable pub list_all_identities : k.World → Result Failure (List Identity)
  list_all_identities w = walk w 1000 none

  module _ (js : TextOps) where
    abbrev pub to_list : Option Identity → List Identity
    to_list none = []
    to_list (some i) = i ∷ []

    pub matching : k.World → Option (Attribute × String) → Result Failure (List Identity)
    matching w none = list_all_identities w
    matching w (some (user_name, value)) = elim (find_by_email k w (js.to_lower_case value)) [
      | err e ↦ err e
      | ok found ↦ ok (to_list found)
    ]
    matching w (some (external_id, value)) = elim (list_all_identities w) [
      | err e ↦ err e
      | ok everyone ↦ ok (filter (has_external_id value) everyone)
    ]

    unfoldable pub list_users : k.World → ListOptions → Result ScimError ListResponse
    unfolding matching
    list_users w opts = elim (parse_filter opts.filter) [
      | err e ↦ err e
      | ok parsed ↦ elim (matching w parsed) [
        | err e ↦ err (passed_on e)
        | ok matched ↦ ok (to_response opts matched)
      ]
    ]

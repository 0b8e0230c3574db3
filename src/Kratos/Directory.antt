-- ===== src/Kratos/Directory.antt =====
-- The walks over all identities in src/services/kratos.service.ts: getAllIdentitiesWithBindings, past
-- its cache, and listIdentitiesByOrganization. One page of `listIdentities` is a parameter: what Kratos
-- answers to a page token.
pub mod Walks
use jinbe.Prelude.{
  ℕ, zero, suc, String, ◌≡◌, ◌≢◌, Bool, true, false, ◌||◌, ◌==◌, if◌then◌else◌, Option, none, some,
  List, [], ◌∷◌, ◌++◌, Result, ok, err, or_else, includes, is_empty, filter, truthy, Entries,
  insert,
}
use jinbe.Kratos.{Failure}

-- the fields of an identity that the walks read
pub record Listed : Type 0 where
  pub id : String
  pub state : String
  pub email : Option String
  pub name : Option String
  pub groups : Option (List String)
  pub organizations : Option (List String)
  pub organization_id : Option String
  pub trait_organization_id : Option String

pub record Page : Type 0 where
  pub identities : List Listed
  pub next_page_token : Option String

pub record Binding : Type 0 where
  pub groups : List String
  pub organizations : List String
  pub primary_organization : Option String
  pub active : Bool
  pub id : String
  pub name : Option String

-- `a || b || null`
abbrev pub first_organization : Option String → Option String → Option String
first_organization a b = elim (truthy a) [ some org ↦ some org | none ↦ truthy b ]

unfoldable pub binding_of : Listed → Binding
binding_of i = record {
  groups = or_else i.groups ("users" ∷ []);
  organizations = or_else i.organizations [];
  primary_organization = first_organization i.organization_id i.trait_organization_id;
  active = i.state == "active";
  id = i.id;
  name = i.name;
}

-- `if (!email) continue` … `result.set(email, …)`
abbrev pub add_identity : Option String → Binding → Entries Binding → Entries Binding
add_identity none b m = m
add_identity (some email) b m = insert email b m

unfoldable pub add_identities : List Listed → Entries Binding → Entries Binding
add_identities [] m = m
add_identities (i ∷ is) m = add_identities is (add_identity (truthy i.email) (binding_of i) m)

abbrev pub same_token : Option String → String → Bool
same_token none next = false
same_token (some token) next = token == next

-- where to go on: not at the end of the list, at a token that repeats or after an empty page
unfoldable pub next_token : Option String → Page → Option String
next_token token p = elim (truthy p.next_page_token) [
  | none ↦ none
  | some next ↦ if same_token token next || is_empty p.identities then none else some next
]

-- the same, with the tokens that have been seen
unfoldable pub unseen_token : List String → Page → Option String
unseen_token seen p = elim (truthy p.next_page_token) [
  | none ↦ none
  | some next ↦ if is_empty p.identities || includes seen next then none else some next
]

abbrev pub is_member : String → Listed → Bool
is_member org i = elim i.organization_id [ none ↦ false | some o ↦ o == org ]

module _ (fetch : Option String → Result Failure Page) where
  unfoldable pub walk_bindings :
      ℕ → Option String → Entries Binding → Result Failure (Entries Binding)
  walk_bindings zero token m = ok m
  walk_bindings (suc pages) token m = elim (fetch token) [
    | err e ↦ err e
    | ok p ↦ elim (next_token token p) [
      | none ↦ ok (add_identities p.identities m)
      | some next ↦ walk_bindings pages (some next) (add_identities p.identities m)
    ]
  ]

  unfoldable pub get_all_identities_with_bindings : Result Failure (Entries Binding)
  get_all_identities_with_bindings = walk_bindings 1000 none []

  -- `listIdentitiesByOrganization`; what `fetch` asks for is the organisation
  unfoldable pub collect_members :
      String → ℕ → Option String → List String → List Listed → Result Failure (List Listed)
  collect_members org zero token seen found = ok found
  collect_members org (suc pages) token seen found = elim (fetch token) [
    | err e ↦ err e
    | ok p ↦ elim (unseen_token seen p) [
      | none ↦ ok (found ++ filter (is_member org) p.identities)
      | some next ↦
          collect_members org pages (some next) (next ∷ seen)
            (found ++ filter (is_member org) p.identities)
    ]
  ]

  unfoldable pub list_identities_by_organization : String → Result Failure (List Listed)
  list_identities_by_organization org = collect_members org 1000 none [] []

  -- Kratos serves the list in pages: none is empty but the last, and no token is handed out twice.
  -- The tokens before are those of the list.
  pub data Serves : List String → Option String → ℕ → List Listed → Type 0 where
    last :
        {before : List String} {token : Option String} (p : Page)
        → fetch token ≡ ok p
        → truthy p.next_page_token ≡ none
        → Serves before token 1 p.identities
    more :
        {before : List String} {token : Option String} {pages : ℕ} {rest : List Listed} (p : Page)
        (next : String)
        → fetch token ≡ ok p
        → truthy p.next_page_token ≡ some next
        → is_empty p.identities ≡ false
        → includes before next ≡ false
        → Serves (next ∷ before) (some next) pages rest
        → Serves before token (suc pages) (p.identities ++ rest)

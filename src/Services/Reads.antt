-- ===== src/Services/Reads.antt =====
-- The routes of a service in src/services/rbac.service.ts, and the bindings of users that OPA is given
-- there (getBindingsFromKratos), of the directory that kratosService.getAllIdentitiesWithBindings reads.
pub mod Everyone
mod Tests
use mathlib.Core.Option.{some-injective}
use jinbe.Prelude.{
  eq_refl, ℕ, String, ◌≡◌, refl, ap, subst, sym, ◌∙◌, inl, inr, Bool, true, false, ◌||◌, ◌==◌,
  eq_iff, if◌then◌else◌, Option, none, some, List, [], ◌∷◌, ◌++◌, Result, ok, err, or_else,
  includes, truthy, Entries, lookup, insert, lookup-insert, arith, includes-append, Bool-cases,
}
use jinbe.Redis.{Redis}
use jinbe.Kratos.Directory.{Binding}
use jinbe.Rbac.{RouteRule}
use jinbe.Services.Store.{State, service_exists}

pub record KratosBindings : Type 0 where
  pub group_membership : Entries (List String)
  pub user_organizations : Entries (List String)
  pub user_organization_primary : Entries String

-- `if (b.primaryOrganization && !orgs.includes(b.primaryOrganization)) orgs.push(…)`
abbrev pub with_primary : Option String → List String → List String
with_primary none orgs = orgs
with_primary (some p) orgs = if includes orgs p then orgs else orgs ++ p ∷ []

-- the organisations of a user, with the primary one
abbrev pub organizations_of : Binding → List String
organizations_of b = with_primary (truthy b.primary_organization) b.organizations

-- `if (orgs.length > 0) user_organizations[email] = orgs`
abbrev pub set_organizations : String → List String → Entries (List String) → Entries (List String)
set_organizations email [] m = m
set_organizations email (o ∷ orgs) m = insert email (o ∷ orgs) m

abbrev pub set_primary : String → Option String → Entries String → Entries String
set_primary email none m = m
set_primary email (some p) m = insert email p m

abbrev pub add_binding : String → Binding → KratosBindings → KratosBindings
add_binding email b k = record {
  group_membership = insert email b.groups k.group_membership;
  user_organizations = set_organizations email (organizations_of b) k.user_organizations;
  user_organization_primary =
      set_primary email (truthy b.primary_organization) k.user_organization_primary;
}

unfoldable pub bindings_from : Entries Binding → KratosBindings → KratosBindings
bindings_from [] k = k
bindings_from ((email, b) ∷ rest) k = bindings_from rest (add_binding email b k)

-- `getBindingsFromKratos`, of the walk of the directory
unfoldable pub get_bindings_from_kratos : Entries Binding → KratosBindings
get_bindings_from_kratos bindings =
    bindings_from bindings
      (record { group_membership = []; user_organizations = []; user_organization_primary = [] })

module _ (redis : Redis) where
  unfoldable pub get_service_routes : String → State redis → Result ℕ (List RouteRule)
  get_service_routes name s =
      if service_exists redis s name
      then ok (or_else (redis.hget (List RouteRule) s.store.route_map name) [])
      else err 404

-- the directory is a map: each e-mail stands in it once
abbrev pub IsDistinct : Entries Binding → Type 0
IsDistinct [] = Unit
IsDistinct ((email, b) ∷ rest) = (lookup email rest ≡ none) × IsDistinct rest

-- what the bindings say of an e-mail
abbrev pub said :
    String → KratosBindings → Option (List String) × Option (List String) × Option String
said email k = (
  lookup email k.group_membership,
  lookup email k.user_organizations,
  lookup email k.user_organization_primary,
)

-- and what they should say: an e-mail without organisations is not listed among them
abbrev pub if_any : List String → Option (List String)
if_any [] = none
if_any (o ∷ orgs) = some (o ∷ orgs)

abbrev pub told : Binding → Option (List String) × Option (List String) × Option String
told b = (some b.groups, if_any (organizations_of b), truthy b.primary_organization)

module _ {V : Type 0} where
  insert-other :
      (email j : String) (v : V) (m : Entries V)
      → (j == email) ≡ false
      → lookup email (insert j v m) ≡ lookup email m
  insert-other email j v m h = lookup-insert j email v m ∙ rw h refl

  insert-same : (email : String) (v : V) (m : Entries V) → lookup email (insert email v m) ≡ some v
  insert-same email v m = lookup-insert email email v m ∙ rw (eq_refl email) refl

set_organizations-other :
    (email j : String) (orgs : List String) (m : Entries (List String))
    → (j == email) ≡ false
    → lookup email (set_organizations j orgs m) ≡ lookup email m
set_organizations-other email j [] m h = refl
set_organizations-other email j (o ∷ orgs) m h = insert-other email j (o ∷ orgs) m h

set_organizations-same :
    (email : String) (orgs : List String) (m : Entries (List String))
    → lookup email m ≡ none
    → lookup email (set_organizations email orgs m) ≡ if_any orgs
set_organizations-same email [] m h = h
set_organizations-same email (o ∷ orgs) m h = insert-same email (o ∷ orgs) m

set_primary-other :
    (email j : String) (p : Option String) (m : Entries String)
    → (j == email) ≡ false
    → lookup email (set_primary j p m) ≡ lookup email m
set_primary-other email j none m h = refl
set_primary-other email j (some p) m h = insert-other email j p m h

set_primary-same :
    (email : String) (p : Option String) (m : Entries String)
    → lookup email m ≡ none
    → lookup email (set_primary email p m) ≡ p
set_primary-same email none m h = h
set_primary-same email (some p) m h = insert-same email p m

triple :
    {A B C : Type 0} {a a' : A} {b b' : B} {c c' : C}
    → a ≡ a'
    → b ≡ b'
    → c ≡ c'
    → ◌≡◌ {A = A × B × C} (a, b, c) (a', b', c')
triple p q r = cc

add_binding-other :
    (email j : String) (b : Binding) (k : KratosBindings)
    → (j == email) ≡ false
    → said email (add_binding j b k) ≡ said email k
add_binding-other email j b k h =
    triple (insert-other email j b.groups k.group_membership h)
      (set_organizations-other email j (organizations_of b) k.user_organizations h)
      (set_primary-other email j (truthy b.primary_organization) k.user_organization_primary h)

pub bindings_from-absent :
    (email : String) (es : Entries Binding) (k : KratosBindings)
    → lookup email es ≡ none
    → said email (bindings_from es k) ≡ said email k
unfolding bindings_from
bindings_from-absent email [] k h = refl
bindings_from-absent email ((j, b) ∷ es) k h = elim (Bool-cases (j == email)) [
  | inl here ↦ cc (rw here at h)
  | inr other ↦
      bindings_from-absent email es (add_binding j b k) (rw other at h)
      ∙ add_binding-other email j b k other
]

add_binding-said :
    (email : String) (b : Binding) (k : KratosBindings)
    → said email k ≡ (none, none, none)
    → said email (add_binding email b k) ≡ told b
add_binding-said email b k h =
    let orgs : lookup email k.user_organizations ≡ none = ap (λ x. x.1) h in
    let primary : lookup email k.user_organization_primary ≡ none = ap (λ x. x.2) h in
    triple (insert-same email b.groups k.group_membership)
      (set_organizations-same email (organizations_of b) k.user_organizations orgs)
      (set_primary-same email (truthy b.primary_organization) k.user_organization_primary primary)

bindings_from-told :
    (email : String) (b : Binding) (es : Entries Binding) (k : KratosBindings)
    → IsDistinct es
    → lookup email es ≡ some b
    → said email k ≡ (none, none, none)
    → said email (bindings_from es k) ≡ told b
unfolding bindings_from
bindings_from-told email b [] k d h new = cc
bindings_from-told email b ((j, c) ∷ es) k (absent, d) h new = elim (Bool-cases (j == email)) [
  | inl here ↦
      let same : j ≡ email = (eq_iff j email).0 here in
      let first : said email (add_binding j c k) ≡ told c =
        subst (λ x. said email (add_binding x c k) ≡ told c) (sym same)
          (add_binding-said email c k new) in
      bindings_from-absent email es (add_binding j c k)
        (subst (λ x. lookup x es ≡ none) same absent)
      ∙ first
      ∙ ap told (some-injective c b (rw here at h))
  | inr other ↦
      bindings_from-told email b es (add_binding j c k) d (rw other at h)
        (add_binding-other email j c k other ∙ new)
]

-- whether it is the primary organisation
abbrev pub is_primary : Option String → String → Bool
is_primary none o = false
is_primary (some p) o = p == o

included_alone : (p o : String) → includes (p ∷ []) o ≡ (p == o)
included_alone p o = ground arith

with_primary-includes :
    (p : Option String) (orgs : List String) (o : String)
    → includes (with_primary p orgs) o ≡ (includes orgs o || is_primary p o)
with_primary-includes none orgs o = ground arith
with_primary-includes (some p) orgs o = elim (Bool-cases (includes orgs p)) [
  | inl there ↦ rw there (elim (Bool-cases (p == o)) [
    | inl same ↦
        let member : includes orgs o ≡ true =
          subst (λ x. includes orgs x ≡ true) ((eq_iff p o).0 same) there in
        rw (same, member) refl
    | inr other ↦ rw other (ground arith)
  ])
  | inr new ↦
      rw new (includes-append orgs (p ∷ []) o ∙ ap (λ x. includes orgs o || x) (included_alone p o))
]

-- Where each e-mail stands in the directory once, OPA is told of a user of the directory: the groups;
-- the organisations, unless there are none; and the primary organisation, unless it is unset or empty.
-- The organisations are those of the metadata and the primary one, and no others.
pub get_bindings_from_kratos-told :
    (es : Entries Binding) (email : String) (b : Binding)
    → IsDistinct es
    → lookup email es ≡ some b
    → (said email (get_bindings_from_kratos es) ≡ told b)
      × ((o : String)
          → includes (organizations_of b) o
            ≡ (includes b.organizations o || is_primary (truthy b.primary_organization) o))
unfolding get_bindings_from_kratos
get_bindings_from_kratos-told es email b d h = (
  bindings_from-told email b es _ d h refl,
  with_primary-includes (truthy b.primary_organization) b.organizations,
)

-- ===== src/Services/Reads/Everyone.antt =====
-- The bindings that OPA is given against the directory of Kratos: getBindingsFromKratos of
-- src/services/rbac.service.ts over getAllIdentitiesWithBindings of src/services/kratos.service.ts.
use jinbe.Prelude.{
  ℕ, ◌≤◌, String, ◌≡◌, refl, ap, ◌∙◌, inl, inr, Bool, true, false, ◌==◌, eq_iff, if◌then◌else◌,
  Bool-cases, Option, none, some, List, [], ◌∷◌, Result, ok, truthy, filter, Entries, lookup,
  insert, lookup-insert, arith, subst, includes, or_else, is_some, ◌||◌,
}
use jinbe.Kratos.{Failure}
use jinbe.Kratos.Directory.{
  Listed, Page, Binding, add_identity, add_identities, binding_of, get_all_identities_with_bindings,
  Serves, list_identities_by_organization, is_member,
}
use jinbe.Kratos.Directory.Walks.{walk_bindings-Serves, collect_members-Serves}
use jinbe.Services.Reads.{
  KratosBindings, organizations_of, if_any, is_primary, get_bindings_from_kratos,
  get_bindings_from_kratos-told, bindings_from-absent, IsDistinct, said,
}

-- `i` has the address
abbrev pub has_address : String → Option String → Bool
has_address email none = false
has_address email (some e) = e == email

abbrev pub or_last : {A : Type 0} → Option A → Bool → A → Option A
or_last (some b) here c = some b
or_last none true c = some c
or_last none false c = none

-- the last identity with the address
abbrev pub last_listed : String → List Listed → Option Listed
last_listed email [] = none
last_listed email (i ∷ is) = or_last (last_listed email is) (has_address email (truthy i.email)) i

abbrev last_binding : String → List Listed → Option Binding
last_binding email [] = none
last_binding email (i ∷ is) =
    or_last (last_binding email is) (has_address email (truthy i.email)) (binding_of i)

abbrev binding_if : Option Listed → Option Binding
binding_if none = none
binding_if (some i) = some (binding_of i)

or_last-binding_of :
    (o : Option Listed) (here : Bool) (i : Listed)
    → or_last (binding_if o) here (binding_of i) ≡ binding_if (or_last o here i)
or_last-binding_of none true i = refl
or_last-binding_of none false i = refl
or_last-binding_of (some j) here i = refl

last_binding-last_listed :
    (email : String) (is : List Listed) → last_binding email is ≡ binding_if (last_listed email is)
last_binding-last_listed email [] = refl
last_binding-last_listed email (i ∷ is) =
    ap (λ o. or_last o (has_address email (truthy i.email)) (binding_of i))
      (last_binding-last_listed email is)
    ∙ or_last-binding_of (last_listed email is) (has_address email (truthy i.email)) i

abbrev instead : Option Binding → Option Binding → Option Binding
instead none old = old
instead (some b) old = some b

lookup-add_identity :
    (email : String) (address : Option String) (b : Binding) (m : Entries Binding)
    → lookup email (add_identity address b m)
      ≡ (if has_address email address then some b else lookup email m)
lookup-add_identity email none b m = refl
lookup-add_identity email (some e) b m = lookup-insert e email b m

instead-or_last :
    (rest : Option Binding) (here : Bool) (b : Binding) (old : Option Binding)
    → instead rest (if here then some b else old) ≡ instead (or_last rest here b) old
instead-or_last none true b old = refl
instead-or_last none false b old = refl
instead-or_last (some c) here b old = refl

lookup-add_identities :
    (email : String) (xs : List Listed) (m : Entries Binding)
    → lookup email (add_identities xs m) ≡ instead (last_binding email xs) (lookup email m)
unfolding add_identities
lookup-add_identities email [] m = refl
lookup-add_identities email (i ∷ is) m =
    lookup-add_identities email is (add_identity (truthy i.email) (binding_of i) m)
    ∙ ap (instead (last_binding email is))
        (lookup-add_identity email (truthy i.email) (binding_of i) m)
    ∙ instead-or_last (last_binding email is) (has_address email (truthy i.email)) (binding_of i)
        (lookup email m)

insert-IsDistinct :
    (email : String) (b : Binding) (m : Entries Binding)
    → IsDistinct m
    → IsDistinct (insert email b m)
insert-IsDistinct email b [] d = (refl, tt)
insert-IsDistinct email b ((j, c) ∷ m) (absent, d) = elim (Bool-cases (j == email)) [
  | inl e ↦ rw e (subst (λ x. lookup x m ≡ none) ((eq_iff j email).0 e) absent, d)
  | inr e ↦ rw e (
    lookup-insert email j b m ∙ ground (arith, eq_iff j email, eq_iff email j),
    insert-IsDistinct email b m d,
  )
]

add_identity-IsDistinct :
    (address : Option String) (b : Binding) (m : Entries Binding)
    → IsDistinct m
    → IsDistinct (add_identity address b m)
add_identity-IsDistinct none b m d = d
add_identity-IsDistinct (some e) b m d = insert-IsDistinct e b m d

add_identities-IsDistinct :
    (xs : List Listed) (m : Entries Binding) → IsDistinct m → IsDistinct (add_identities xs m)
unfolding add_identities
add_identities-IsDistinct [] m d = d
add_identities-IsDistinct (i ∷ is) m d =
    add_identities-IsDistinct is _ (add_identity-IsDistinct (truthy i.email) (binding_of i) m d)

-- the organisation of the identity itself, or else that of its traits
abbrev pub primary_of : Listed → Option String
primary_of i = elim (truthy i.organization_id) [
  | some org ↦ some org
  | none ↦ truthy i.trait_organization_id
]

-- What the bindings say of an address is what an identity says, or nothing where there is none. Its
-- groups are those of its metadata, or `users` where they have none. It has the organisations of its
-- metadata and the primary one.
abbrev pub Tells : KratosBindings → String → Option Listed → Type 0
Tells k email none = said email k ≡ (none, none, none)
Tells k email (some i) =
    (lookup email k.group_membership ≡ some (or_else i.groups ("users" ∷ [])))
    × ((org : String)
        → includes (or_else (lookup email k.user_organizations) []) org
          ≡ (includes (or_else i.organizations []) org || is_primary (primary_of i) org))
    × (lookup email k.user_organization_primary ≡ primary_of i)

or_else-if_any : (orgs : List String) → or_else (if_any orgs) [] ≡ orgs
or_else-if_any [] = refl
or_else-if_any (o ∷ orgs) = refl

truthy-truthy : (o : Option String) → truthy (truthy o) ≡ truthy o
truthy-truthy none = refl
truthy-truthy (some s) = elim (Bool-cases (s == "")) [
  | inl e ↦ rw e refl
  | inr e ↦ rw e (rw e refl)
]

primary_of-truthy : (i : Listed) → truthy (binding_of i).primary_organization ≡ primary_of i
unfolding binding_of
primary_of-truthy i = elim (Bool-cases (is_some (truthy i.organization_id))) [
  | inl e ↦ ground (arith, truthy-truthy i.organization_id, e)
  | inr e ↦ ground (arith, truthy-truthy i.trait_organization_id, e)
]

binding_of-Tells :
    (es : Entries Binding) (email : String) (i : Listed)
    → IsDistinct es
    → lookup email es ≡ some (binding_of i)
    → Tells (get_bindings_from_kratos es) email (some i)
unfolding binding_of
binding_of-Tells es email i d h =
    let (told_it, orgs) = get_bindings_from_kratos-told es email (binding_of i) d h in
    (
      ap (λ x. x.0) told_it,
      (λ org.
          ap (λ x. includes (or_else x.1 []) org) told_it
          ∙ ap (λ os. includes os org) (or_else-if_any (organizations_of (binding_of i)))
          ∙ orgs org
          ∙ ap (λ p. includes (or_else i.organizations []) org || is_primary p org)
              (primary_of-truthy i)),
      ap (λ x. x.2) told_it ∙ primary_of-truthy i,
    )

listed-Tells :
    (es : Entries Binding) (email : String) (i : Option Listed)
    → IsDistinct es
    → lookup email es ≡ binding_if i
    → Tells (get_bindings_from_kratos es) email i
unfolding get_bindings_from_kratos
listed-Tells es email none d h = bindings_from-absent email es _ h
listed-Tells es email (some i) d h = binding_of-Tells es email i d h

instead-none : (b : Option Binding) → instead b none ≡ b
instead-none none = refl
instead-none (some b) = refl

module _ (fetch : Option String → Result Failure Page) where
  -- Where Kratos serves its identities in at most a thousand pages, the walk gives a result, and OPA is
  -- told of each address what the last identity with it has: the groups of its metadata, or `users`
  -- where there are none; as organisations those of its metadata and the primary one, and no others;
  -- as the primary one its own organisation, or else that of its traits; and nothing of an address
  -- that no identity has.
  pub get_all_identities_with_bindings-told :
      {pages : ℕ} {xs : List Listed}
      → Serves fetch [] none pages xs
      → pages ≤ 1000
      → (bindings : Entries Binding) × (get_all_identities_with_bindings fetch ≡ ok bindings)
        × ((email : String)
            → Tells (get_bindings_from_kratos bindings) email (last_listed email xs))
  unfolding get_all_identities_with_bindings
  get_all_identities_with_bindings-told {pages} {xs} served h = (
    add_identities xs [],
    walk_bindings-Serves fetch served 1000 [] h tt,
    λ email.
        listed-Tells (add_identities xs []) email (last_listed email xs)
          (add_identities-IsDistinct xs [] tt)
          (lookup-add_identities email xs []
            ∙ instead-none (last_binding email xs)
            ∙ last_binding-last_listed email xs),
  )

  -- Where Kratos serves its identities in at most a thousand pages, the members of an organisation are
  -- all of the identities that have it as their own, in order.
  pub list_identities_by_organization-all :
      (org : String) {pages : ℕ} {xs : List Listed}
      → Serves fetch [] none pages xs
      → pages ≤ 1000
      → list_identities_by_organization fetch org ≡ ok (filter (is_member org) xs)
  unfolding list_identities_by_organization
  list_identities_by_organization-all org served h =
      collect_members-Serves fetch served org 1000 [] h

-- ===== src/Scim.antt =====
-- src/services/scim.service.ts: SCIM users as views over the identities of Kratos. The times of
-- creation and of the last synchronisation are left out.
pub mod Writes
pub mod Patch
pub mod Filter
pub mod Listing
pub mod Paging
pub mod Routes
pub mod Preserved
pub mod Managed
pub mod Deactivation
pub mod Refusals
mod Tests
use jinbe.Prelude.{
  ℕ, String, Bool, true, false, ◌==◌, if◌then◌else◌, Option, none, some, List, [], ◌∷◌, or_else,
  Result, ok, err, find?, head?, TextOps, split, join, truthy, same_number, present, is_empty,
}
use jinbe.Kratos.{
  Kratos, Identity, ScimMetadata, Failure, api_error, network, metadata_of, groups_of,
}

-- `ScimError` with its status and scimType, or an error that the service passes on
pub data ScimError : Type 0 where
  scim_error : ℕ → Option String → ScimError
  passed_on : Failure → ScimError

pub record ScimName : Type 0 where
  pub given_name : Option String
  pub family_name : Option String
  pub formatted : Option String

pub record ScimEmail : Type 0 where
  pub value : Option String
  pub primary : Bool

pub record ScimUserInput : Type 0 where
  pub user_name : Option String
  pub external_id : Option String
  pub name : Option ScimName
  pub display_name : Option String
  pub emails : List ScimEmail
  pub active : Option Bool

-- the resource that `toScimUser` makes; a group is its value and display at once
pub record ScimUser : Type 0 where
  pub id : String
  pub external_id : Option String
  pub user_name : Option String
  pub name : Option ScimName
  pub display_name : Option String
  pub emails : List ScimEmail
  pub active : Bool
  pub groups : List String

abbrev pub no_name : ScimName
no_name = record { given_name = none; family_name = none; formatted = none }

-- `scimMetaOf(identity).externalId`
abbrev pub external_id_of : Identity → Option String
external_id_of i = elim (metadata_of i).scim [ none ↦ none | some m ↦ m.external_id ]

-- `a || b`
abbrev pub first_truthy : Option String → Option String → Option String
first_truthy a b = elim (truthy a) [ some s ↦ some s | none ↦ truthy b ]

unfoldable pub name_from_input : ScimUserInput → Option String
name_from_input body =
    let n = or_else body.name no_name in
    let parts = present (n.given_name ∷ n.family_name ∷ []) in
    if is_empty parts then first_truthy n.formatted body.display_name else some (join parts)

abbrev pub value_of : Option ScimEmail → Option String
value_of none = none
value_of (some e) = e.value

-- `[givenName, ...rest] = fullName.split(' ')`
abbrev pub scim_name_of : String → List String → ScimName
scim_name_of full [] = record { given_name = none; family_name = none; formatted = some full }
scim_name_of full (given ∷ rest) = record {
  given_name = some given;
  family_name = if is_empty rest then none else some (join rest);
  formatted = some full;
}

abbrev pub scim_name : String → ScimName
scim_name full = scim_name_of full (split full)

unfoldable pub to_scim_user : Identity → ScimUser
unfolding groups_of
to_scim_user i =
    let email = i.content.traits.email in
    let full_name = truthy i.content.traits.name in
    record {
      id = i.id;
      external_id = truthy (external_id_of i);
      user_name = email;
      name = elim full_name [ none ↦ none | some full ↦ some (scim_name full) ];
      display_name = full_name;
      emails = record { value = email; primary = true } ∷ [];
      active = i.content.state == "active";
      groups = groups_of i;
    }

module _ (js : TextOps) where
  unfoldable pub email_from_input : ScimUserInput → Option String
  email_from_input body =
      let primary = value_of (find? (λ (e : ScimEmail). e.primary) body.emails) in
      let raw = first_truthy (first_truthy body.user_name primary) (value_of (head? body.emails)) in
      elim raw [ none ↦ none | some s ↦ some (js.to_lower_case (js.trim s)) ]

module _ (k : Kratos) where
  not_found : Failure → ScimError
  not_found network = passed_on network
  not_found (api_error status) =
      if same_number status 404 then scim_error 404 none else passed_on (api_error status)

  unfoldable pub get_identity_or_404 : k.World → String → Result ScimError Identity
  unfolding not_found
  get_identity_or_404 w id = elim (k.get w id) [ err e ↦ err (not_found e) | ok i ↦ ok i ]

  unfoldable pub get_user : k.World → String → Result ScimError ScimUser
  unfolding get_identity_or_404 to_scim_user
  get_user w id = elim (get_identity_or_404 w id) [ err e ↦ err e | ok i ↦ ok (to_scim_user i) ]

-- ===== src/Kratos.antt =====
-- src/services/kratos.service.ts: the identities of Ory Kratos, and the group operations on them.
-- The Kratos admin API is a parameter: each field of `Kratos` is one HTTP request, with the state
-- of the server before it and, where it may write, after it.
pub mod Laws
pub mod Memory
pub mod Directory
use jinbe.Prelude.{
  String, ◌≡◌, ◌≢◌, Bool, true, false, not, ◌==◌, if◌then◌else◌, Option, none, some, List, [], ◌∷◌,
  ℕ, zero, suc, Result, ok, err, or_else, includes, filter, is_empty, Entries, insert,
}

-- `KratosApiError` with its status, or a request that did not come back
pub data Failure : Type 0 where
  api_error : ℕ → Failure
  network : Failure

-- metadata_admin.scim
pub record ScimMetadata : Type 0 where
  pub external_id : Option String
  pub managed : Bool
  pub idp : String

-- metadata_admin; `other` holds the fields that jinbe carries along and does not read
pub record MetadataAdmin : Type 0 where
  pub groups : Option (List String)
  pub scim : Option ScimMetadata
  pub other : Entries String

pub record Traits : Type 0 where
  pub email : Option String
  pub name : Option String

-- the writable part of an identity
pub record IdentityData : Type 0 where
  pub schema_id : String
  pub state : String
  pub traits : Traits
  pub metadata_admin : Option MetadataAdmin

pub record Identity : Type 0 where
  pub id : String
  pub content : IdentityData

abbrev pub no_metadata : MetadataAdmin
no_metadata = record { groups = none; scim = none; other = [] }

-- The requests, and the documented behaviour that the group operations rely on: a PUT that
-- succeeds returns the identity with what was sent, and the server answers with it from then on.
pub record Kratos : Type 1 where
  pub World : Type 0
  -- GET /admin/identities?page_size=1&credentials_identifier=…
  pub get_identities : World → String → Result Failure (List Identity)
  -- GET /admin/identities, all pages
  pub get_directory : World → Result Failure (List Identity)
  -- GET /admin/identities/:id
  pub get : World → String → Result Failure Identity
  -- POST /admin/identities
  pub post : World → IdentityData → Result Failure Identity × World
  -- PUT /admin/identities/:id
  pub put : World → String → IdentityData → Result Failure Identity × World
  -- DELETE /admin/identities/:id/sessions
  pub delete_sessions : World → String → Result Failure (Unit {0}) × World
  -- GET /admin/identities/:id?include_credential=…, through `mfaFromCredentials`
  pub get_mfa : World → String → Result Failure Bool
  pub put_content :
      (w w' : World) (id : String) (d : IdentityData) (i : Identity)
      → put w id d ≡ (ok i, w')
      → i ≡ record { id = id; content = d }
  pub get_identities-put :
      (w w' : World) (e : String) (d : IdentityData) (i j : Identity)
      → get_identities w e ≡ ok (j ∷ [])
      → get w j.id ≡ ok j
      → d.traits.email ≡ j.content.traits.email
      → put w j.id d ≡ (ok i, w')
      → get_identities w' e ≡ ok (i ∷ [])

-- KratosIdentityUpdate: an absent field keeps its value
pub record IdentityUpdate : Type 0 where
  pub state : Option String
  pub email : Option (Option String)
  pub name : Option (Option String)
  pub metadata_admin : Option MetadataAdmin

abbrev pub no_update : IdentityUpdate
no_update = record { state = none; email = none; name = none; metadata_admin = none }

abbrev pub base_group : String
base_group = "users"

abbrev pub metadata_of : Identity → MetadataAdmin
metadata_of i = or_else i.content.metadata_admin no_metadata

-- `metadataAdmin?.groups || ['users']`
unfoldable pub groups_of : Identity → List String
groups_of i = or_else (metadata_of i).groups (base_group ∷ [])

-- the body of the PUT in `updateIdentity`
unfoldable pub merge_update : IdentityData → IdentityUpdate → IdentityData
merge_update current u = record {
  schema_id = current.schema_id;
  state = or_else u.state current.state;
  traits = record {
    email = or_else u.email current.traits.email;
    name = or_else u.name current.traits.name;
  };
  metadata_admin = elim u.metadata_admin [ some m ↦ some m | none ↦ current.metadata_admin ];
}

-- Without the group; a user is never left without any.
unfoldable pub without_group : String → List String → List String
without_group group current =
    let next = filter (λ g. not (g == group)) current in
    if is_empty next then base_group ∷ [] else next

module _ (k : Kratos) where
  first_identity : Result Failure (List Identity) → Result Failure Identity
  first_identity (err e) = err e
  first_identity (ok []) = err (api_error 404)
  first_identity (ok (i ∷ is)) = ok i

  unfoldable pub get_user_groups : k.World → String → Result Failure (List String)
  unfolding first_identity groups_of
  get_user_groups w email = elim (first_identity (k.get_identities w email)) [
    | err e ↦ err e
    | ok i ↦ ok (groups_of i)
  ]

  unfoldable pub find_by_email : k.World → String → Result Failure (Option Identity)
  find_by_email w email = elim (k.get_identities w email) [
    | err e ↦ err e
    | ok is ↦ elim is [ [] ↦ ok none | i ∷ rest ↦ ok (some i) ]
  ]

  unfoldable pub update_identity :
      k.World → String → IdentityUpdate → Result Failure Identity × k.World
  unfolding merge_update
  update_identity w id u = elim (k.get w id) [
    | err e ↦ (err e, w)
    | ok current ↦ k.put w id (merge_update current.content u)
  ]

  unfoldable pub update_user_groups :
      k.World → String → List String → Result Failure Identity × k.World
  unfolding first_identity update_identity
  update_user_groups w email groups = elim (first_identity (k.get_identities w email)) [
    | err e ↦ (err e, w)
    | ok i ↦ update_identity w i.id (record no_update {
      metadata_admin = some (record (metadata_of i) { groups = some groups });
    })
  ]

  -- the critical section of `removeGroupFromAllUsers`; an error ends the walk
  remove_from_user : k.World → String → String → Result Failure Bool × k.World
  unfolding get_user_groups update_user_groups without_group
  remove_from_user w group email = elim (get_user_groups w email) [
    | err e ↦ (err e, w)
    | ok current ↦
        if includes current group
        then (let (r, w') = update_user_groups w email (without_group group current) in
            elim r [ err e ↦ (err e, w') | ok i ↦ (ok true, w') ])
        else (ok false, w)
  ]

  counted : Bool → ℕ → ℕ
  counted true n = suc n
  counted false n = n

  -- over the snapshot of email and groups that the directory walk gave
  remove_from_users :
      k.World → String → List (String × List String) → ℕ → Result Failure ℕ × k.World
  remove_from_users w group [] n = (ok n, w)
  remove_from_users w group ((email, groups) ∷ rest) n =
      let (r, w') = remove_from_user w group email in
      let skipped = remove_from_users w group rest n in
      let stopped = λ (e : Failure). err e in
      if includes groups group
      then elim r [ err e ↦ (stopped e, w') | ok b ↦ remove_from_users w' group rest (counted b n) ]
      else skipped

  -- `getAllIdentitiesWithGroups`, as far as this walk reads it: a map by e-mail, where a later
  -- identity replaces an earlier one
  directory_groups : List Identity → List (String × List String) → List (String × List String)
  directory_groups [] seen = seen
  directory_groups (i ∷ is) seen = directory_groups is (elim i.content.traits.email [
    | none ↦ seen
    | some email ↦ (if email == "" then seen else insert email (groups_of i) seen)
  ])

  -- `cached` is the snapshot that a walk of the last seconds left, if there is one
  pub remove_group_from_all_users :
      k.World → Option (List (String × List String)) → String → Result Failure ℕ × k.World
  remove_group_from_all_users w (some snapshot) group = remove_from_users w group snapshot 0
  remove_group_from_all_users w none group = elim (k.get_directory w) [
    | err e ↦ (err e, w)
    | ok is ↦ remove_from_users w group (directory_groups is []) 0
  ]

-- ===== src/Scim/Writes.antt =====
-- The writes of src/services/scim.service.ts: creating, replacing and deactivating a user, and the
-- update that all but the first share. The cache of groups is not modelled.
use jinbe.Prelude.{
  String, Bool, true, false, not, ◌&&◌, ◌==◌, if◌then◌else◌, Option, none, some, [], ◌∷◌, or_else,
  Result, ok, err, TextOps, truthy,
}
use jinbe.Kratos.{
  Kratos, Identity, IdentityUpdate, IdentityData, ScimMetadata, Failure, metadata_of, base_group,
  find_by_email, update_identity,
}
use jinbe.Scim.{
  ScimError, scim_error, passed_on, ScimUserInput, ScimUser, external_id_of, name_from_input,
  email_from_input, to_scim_user, get_identity_or_404,
}

pub record ScimUpdate : Type 0 where
  pub email : Option String
  pub name : Option String
  pub active : Bool
  pub external_id : Option String
  pub external_id_cleared : Bool
  pub token_id : String

abbrev pub scim_metadata : Option String → String → ScimMetadata
scim_metadata external_id token_id = record {
  external_id = external_id;
  managed = true;
  idp = token_id;
}

abbrev pub state_of : Bool → String
state_of active = if active then "active" else "inactive"

-- `a !== b`, for texts that may be absent
abbrev pub differs : Option String → Option String → Bool
differs none none = false
differs none (some b) = true
differs (some a) none = true
differs (some a) (some b) = not (a == b)

-- `other && other.id !== id`
abbrev pub is_other : String → Option Identity → Bool
is_other id none = false
is_other id (some other) = not (other.id == id)

-- `update.externalId ?? previousScim.externalId ?? null`, unless it is cleared
abbrev pub kept_external_id : Identity → ScimUpdate → Option String
kept_external_id current u =
    let kept : Option String = elim u.external_id [
      | some x ↦ some x
      | none ↦ external_id_of current
    ] in
    if u.external_id_cleared then none else kept

-- the argument of `updateIdentity`
abbrev pub identity_update : Identity → ScimUpdate → IdentityUpdate
identity_update current u = record {
  state = some (state_of u.active);
  email = some u.email;
  name = elim u.name [ none ↦ none | some n ↦ some (some n) ];
  metadata_admin = some (record (metadata_of current) {
    scim = some (scim_metadata (kept_external_id current u) u.token_id);
  });
}

-- the body of the POST
abbrev pub new_identity : String → ScimUserInput → String → IdentityData
new_identity email body token_id = record {
  schema_id = "default";
  state = state_of (or_else body.active true);
  traits = record { email = some email; name = truthy (name_from_input body) };
  metadata_admin = some (record {
    groups = some (base_group ∷ []);
    scim = some (scim_metadata body.external_id token_id);
    other = [];
  });
}

module _ (k : Kratos) where
  abbrev pub Reply : Type 0
  Reply = Result ScimError ScimUser × k.World

  -- `revokeAllIdentitySessions(current.id).catch(() => {})`
  unfoldable pub revoke_if_deactivated : k.World → Identity → Bool → k.World
  revoke_if_deactivated w current active =
      if not active && current.content.state == "active"
      then (k.delete_sessions w current.id).1
      else w

  unfoldable pub apply_identity_update : k.World → Identity → ScimUpdate → Reply
  unfolding revoke_if_deactivated to_scim_user
  apply_identity_update w current u =
      let (r, w') = update_identity k w current.id (identity_update current u) in
      elim r [
        | err e ↦ (err (passed_on e), w')
        | ok identity ↦ (ok (to_scim_user identity), revoke_if_deactivated w' current u.active)
      ]

  -- The guard against a second user with the e-mail: the error that it throws, if it does.
  unfoldable pub uniqueness : k.World → Identity → String → Option String → Option ScimError
  uniqueness w current id none = none
  uniqueness w current id (some email) =
      let conflict : Option ScimError = elim (find_by_email k w email) [
        | err e ↦ some (passed_on e)
        | ok other ↦ (if is_other id other then some (scim_error 409 (some "uniqueness")) else none)
      ] in
      if differs (some email) current.content.traits.email then conflict else none

  unfoldable pub posted : Result Failure Identity × k.World → Reply
  unfolding to_scim_user
  posted (err e, w) = (err (passed_on e), w)
  posted (ok identity, w) = (ok (to_scim_user identity), w)

  module _ (js : TextOps) where
    -- `tokenId` is that of the bearer token.
    unfoldable pub create_user : k.World → ScimUserInput → String → Reply
    unfolding posted
    create_user w body token_id = elim (truthy (email_from_input js body)) [
      | none ↦ (err (scim_error 400 (some "invalidValue")), w)
      | some email ↦ elim (find_by_email k w email) [
        | err e ↦ (err (passed_on e), w)
        | ok existing ↦ elim existing [
          | some i ↦ (err (scim_error 409 (some "uniqueness")), w)
          | none ↦ posted (k.post w (new_identity email body token_id))
        ]
      ]
    ]

    -- `emailFromInput(body) || current.traits.email`
    abbrev pub email_or_current : ScimUserInput → Identity → Option String
    email_or_current body current = elim (truthy (email_from_input js body)) [
      | some email ↦ some email
      | none ↦ current.content.traits.email
    ]

    abbrev pub replacement : ScimUserInput → Identity → String → ScimUpdate
    replacement body current token_id = record {
      email = email_or_current body current;
      name = name_from_input body;
      active = or_else body.active true;
      external_id = body.external_id;
      external_id_cleared = false;
      token_id = token_id;
    }

    unfoldable pub replace_user : k.World → String → ScimUserInput → String → Reply
    replace_user w id body token_id = elim (get_identity_or_404 k w id) [
      | err e ↦ (err e, w)
      | ok current ↦ elim (uniqueness w current id (email_or_current body current)) [
        | some e ↦ (err e, w)
        | none ↦ apply_identity_update w current (replacement body current token_id)
      ]
    ]

  abbrev pub deactivation : Identity → String → ScimUpdate
  deactivation current token_id = record {
    email = current.content.traits.email;
    name = none;
    active = false;
    external_id = none;
    external_id_cleared = false;
    token_id = token_id;
  }

  -- DELETE /Users/:id
  unfoldable pub deactivate_user : k.World → String → String → Reply
  deactivate_user w id token_id = elim (get_identity_or_404 k w id) [
    | err e ↦ (err e, w)
    | ok current ↦ apply_identity_update w current (deactivation current token_id)
  ]

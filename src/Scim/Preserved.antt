-- ===== src/Scim/Preserved.antt =====
-- What a SCIM write stores, and what it leaves alone.
use jinbe.Prelude.{
  split, or_else, truthy, String, ◌≡◌, refl, ap, subst, sym, inl, inr, ◌⊎◌, ◌&&◌, ◌==◌, not, Bool,
  Bool-cases, Option, some, List, [], ◌∷◌, Result, ok, TextOps, Result-cases, Option-cases,
}
use jinbe.Kratos.{
  Kratos, Identity, IdentityData, metadata_of, groups_of, update_identity, merge_update,
}
use jinbe.Scim.{ScimError, ScimUserInput, ScimUser, get_identity_or_404, to_scim_user}
use jinbe.Scim.Writes.{
  ScimUpdate, Reply, identity_update, kept_external_id, scim_metadata, apply_identity_update,
  revoke_if_deactivated, uniqueness, email_or_current, replace_user, deactivate_user,
}
use jinbe.Scim.Routes.{shown}
use jinbe.Scim.Patch.{PatchOperation, patch_user, patch_identity, no_changes, apply_operations}

-- Of the identity before a write and after it: the groups and the other admin metadata are the
-- same, it is marked as managed by the token, and its id and schema stand.
pub record IsManagedBy (token_id : String) (before after : Identity) : Type 0 where
  pub same_id : after.id ≡ before.id
  pub same_groups : groups_of after ≡ groups_of before
  pub same_other : (metadata_of after).other ≡ (metadata_of before).other
  pub marked : (x : Option String) × ((metadata_of after).scim ≡ some (scim_metadata x token_id))

pub ok-injective : (a b : ScimUser) → ◌≡◌ {A = Result ScimError ScimUser} (ok a) (ok b) → a ≡ b
ok-injective a b h = cc

module _ (k : Kratos) where
  put-IsManagedBy :
      (w w' : k.World) (current i : Identity) (d : IdentityData) (u : ScimUpdate)
      → k.put w current.id (merge_update d (identity_update current u)) ≡ (ok i, w')
      → IsManagedBy u.token_id current i
  unfolding merge_update groups_of
  put-IsManagedBy w w' current i d u h =
      let e = k.put_content w w' current.id _ i h in
      subst (λ x. IsManagedBy u.token_id current x) (sym e)
        (record {
          same_id = refl;
          same_groups = refl;
          same_other = refl;
          marked = (kept_external_id current u, refl);
        })

  pub update_identity-put :
      (w w' : k.World) (id : String) (i : Identity) (c : _)
      → update_identity k w id c ≡ (ok i, w')
      → (d : IdentityData) × (k.put w id (merge_update d c) ≡ (ok i, w'))
  unfolding update_identity
  update_identity-put w w' id i c h = elim (Result-cases (k.get w id)) [
    | inl (e, miss) ↦ cc (rw (miss, update_identity) at h)
    | inr (j, hit) ↦ (j.content, rw (hit, update_identity) at h)
  ]

  -- `i` is what the server stored in place of `current`, when the SCIM client with the token wrote, and
  -- nothing came after but perhaps the end of the user's sessions.
  pub record IsWritten (w w' : k.World) (token_id : String) (current i : Identity) : Type 0 where
    pub content : IdentityData
    pub after : k.World
    pub stored : k.put w current.id content ≡ (ok i, after)
    pub ended : (w' ≡ after) ⊎ (w' ≡ (k.delete_sessions after current.id).1)
    pub managed : IsManagedBy token_id current i

  -- what a reply to a write on the user `id` shows
  abbrev pub Shows : k.World → k.World → String → String → ScimUser → Type 0
  Shows w w' id token_id user =
      (current : Identity) × (i : Identity) × (k.get w id ≡ ok current)
      × (user ≡ to_scim_user i)
      × IsWritten w w' token_id current i

  pub found :
      (w : k.World) (id : String) (current : Identity)
      → get_identity_or_404 k w id ≡ ok current
      → k.get w id ≡ ok current
  unfolding get_identity_or_404
  found w id current h = elim (Result-cases (k.get w id)) [
    | inl (e, miss) ↦ cc (rw (miss, get_identity_or_404) at h)
    | inr (j, hit) ↦ cc (rw (hit, get_identity_or_404) at h, hit)
  ]

  revoke_if_deactivated-ended :
      (w : k.World) (current : Identity) (active : Bool)
      → (revoke_if_deactivated k w current active ≡ w)
        ⊎ (revoke_if_deactivated k w current active ≡ (k.delete_sessions w current.id).1)
  unfolding revoke_if_deactivated
  revoke_if_deactivated-ended w current active =
      elim (Bool-cases (not active && current.content.state == "active")) [
        | inl e ↦ inr (rw e refl)
        | inr e ↦ inl (rw e refl)
      ]

  apply_identity_update-IsWritten :
      (w w' : k.World) (current : Identity) (u : ScimUpdate) (user : ScimUser)
      → apply_identity_update k w current u ≡ (ok user, w')
      → (i : Identity) × (user ≡ to_scim_user i) × IsWritten w w' u.token_id current i
  unfolding apply_identity_update
  apply_identity_update-IsWritten w w' current u user h =
      let p = update_identity k w current.id (identity_update current u) in
      elim (Result-cases p.0) [
        | inl (e, f) ↦ cc (rw (apply_identity_update, f) at h)
        | inr (i, f) ↦
            let e : ◌≡◌ {A = Result ScimError ScimUser} (ok (to_scim_user i)) (ok user) =
              ap (λ (x : Reply k). x.0) (rw (apply_identity_update, f) at h) in
            let (d, put) = update_identity-put w p.1 current.id i _ (ap (λ r. (r, p.1)) f) in
            (
              i,
              ok-injective _ _ (sym e),
              record {
                content = _;
                after = p.1;
                stored = put;
                ended =
                    subst (λ x. (x ≡ p.1) ⊎ (x ≡ (k.delete_sessions p.1 current.id).1))
                      (ap (λ (x : Reply k). x.1) (rw (apply_identity_update, f) at h))
                      (revoke_if_deactivated-ended p.1 current u.active);
                managed = put-IsManagedBy w p.1 current i d u put;
              },
            )
      ]

  module _ (js : TextOps) where
    pub replace_user-Shows :
        (w w' : k.World) (id token_id : String) (body : ScimUserInput) (user : ScimUser)
        → replace_user k js w id body token_id ≡ (ok user, w')
        → Shows w w' id token_id user
    unfolding replace_user
    replace_user-Shows w w' id token_id body user h =
        elim (Result-cases (get_identity_or_404 k w id)) [
          | inl (e, f) ↦ cc (rw (replace_user, f) at h)
          | inr (current, f) ↦
              elim (Option-cases (uniqueness k w current id (email_or_current k js body current))) [
                | inr (e, g) ↦ cc (rw (replace_user, f, g) at h)
                | inl g ↦
                    let (i, shown, written) =
                      apply_identity_update-IsWritten w w' current _ user
                        (rw (replace_user, f, g) at h) in
                    (current, i, found w id current f, shown, written)
              ]
        ]

    patch_identity-IsWritten :
        (w w' : k.World) (current : Identity) (id token_id : String) (os : List PatchOperation)
        (user : ScimUser)
        → patch_identity k js w current id os token_id ≡ (ok user, w')
        → (i : Identity) × (user ≡ to_scim_user i) × IsWritten w w' token_id current i
    unfolding patch_identity
    patch_identity-IsWritten w w' current id token_id os user h =
        let start = no_changes (split (or_else current.content.traits.name "")) in
        elim (Result-cases (apply_operations js os start)) [
          | inl (e, f) ↦ cc (rw (patch_identity, f) at h)
          | inr (c, f) ↦ elim (Option-cases (uniqueness k w current id (truthy c.email))) [
            | inr (e, g) ↦ cc (rw (patch_identity, f, g) at h)
            | inl g ↦
                apply_identity_update-IsWritten w w' current _ user (rw (patch_identity, f, g) at h)
          ]
        ]

    pub patch_user-Shows :
        (w w' : k.World) (id token_id : String) (os : List PatchOperation) (user : ScimUser)
        → patch_user k js w id os token_id ≡ (ok user, w')
        → Shows w w' id token_id user
    unfolding patch_user
    patch_user-Shows w w' id token_id [] user h = cc
    patch_user-Shows w w' id token_id (o ∷ os) user h =
        elim (Result-cases (get_identity_or_404 k w id)) [
          | inl (e, f) ↦ cc (rw (patch_user, f) at h)
          | inr (current, f) ↦
              let (i, shown, written) =
                patch_identity-IsWritten w w' current id token_id (o ∷ os) user
                  (rw (patch_user, f) at h) in
              (current, i, found w id current f, shown, written)
        ]

    pub deactivate_user-Shows :
        (w w' : k.World) (id token_id : String) (user : ScimUser)
        → deactivate_user k w id token_id ≡ (ok user, w')
        → Shows w w' id token_id user
    unfolding deactivate_user
    deactivate_user-Shows w w' id token_id user h =
        elim (Result-cases (get_identity_or_404 k w id)) [
          | inl (e, f) ↦ cc (rw (deactivate_user, f) at h)
          | inr (current, f) ↦
              let (i, shown, written) =
                apply_identity_update-IsWritten w w' current _ user
                  (rw (deactivate_user, f) at h) in
              (current, i, found w id current f, shown, written)
        ]

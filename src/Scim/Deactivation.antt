-- ===== src/Scim/Deactivation.antt =====
-- Deactivating a SCIM user: DELETE, and a PATCH or PUT that sets `active` to false.
use jinbe.Prelude.{String, ◌≡◌, refl, ap, sym, ◌∙◌, inl, inr, false, ◌==◌, ok, Result-cases}
use jinbe.Kratos.{Kratos, Identity, IdentityData, update_identity, merge_update}
use jinbe.Scim.{ScimUser, to_scim_user, get_identity_or_404}
use jinbe.Scim.Writes.{
  state_of, ScimUpdate, Reply, identity_update, apply_identity_update, revoke_if_deactivated,
  deactivate_user, deactivation,
}
use jinbe.Scim.Preserved.{update_identity-put, found, ok-injective}

module _ (k : Kratos) where
  -- `current` was replaced by an inactive identity of the same e-mail, and the sessions of an
  -- active user were revoked after that, whether or not the request to revoke them succeeded.
  pub record IsDeactivated (w : k.World) (current i : Identity) (w' : k.World) : Type 0 where
    pub content : IdentityData
    pub written : k.World
    pub stored : k.put w current.id content ≡ (ok i, written)
    pub inactive : i.content.state ≡ "inactive"
    pub same_email : i.content.traits.email ≡ current.content.traits.email
    pub revoked : current.content.state ≡ "active" → w' ≡ (k.delete_sessions written current.id).1

  revoke-delete_sessions :
      (w : k.World) (current : Identity)
      → current.content.state ≡ "active"
      → revoke_if_deactivated k w current false ≡ (k.delete_sessions w current.id).1
  unfolding revoke_if_deactivated
  revoke-delete_sessions w current e = rw (revoke_if_deactivated, e) refl

  apply_identity_update-IsDeactivated :
      (w w' : k.World) (current : Identity) (u : ScimUpdate) (user : ScimUser)
      → u.active ≡ false
      → u.email ≡ current.content.traits.email
      → apply_identity_update k w current u ≡ (ok user, w')
      → (i : Identity) × (user ≡ to_scim_user i) × IsDeactivated w current i w'
  unfolding apply_identity_update merge_update
  apply_identity_update-IsDeactivated w w' current u user off same h =
      let p = update_identity k w current.id (identity_update current u) in
      elim (Result-cases p.0) [
        | inl (e, f) ↦ cc (rw (apply_identity_update, f) at h)
        | inr (i, f) ↦
            let both : (ok (to_scim_user i), revoke_if_deactivated k p.1 current u.active)
                ≡ (ok user, w') =
              rw (apply_identity_update, f) at h in
            let (d, put) = update_identity-put k w p.1 current.id i _ (ap (λ r. (r, p.1)) f) in
            let content = k.put_content w p.1 current.id _ i put in
            (
              i,
              ok-injective _ _ (sym (ap (λ (x : Reply k). x.0) both)),
              record {
                content = _;
                written = p.1;
                stored = put;
                inactive = ap (λ (x : Identity). x.content.state) content ∙ ap state_of off;
                same_email = ap (λ (x : Identity). x.content.traits.email) content ∙ same;
                revoked = λ active.
                    sym (ap (λ (x : Reply k). x.1) both)
                    ∙ ap (λ b. revoke_if_deactivated k p.1 current b) off
                    ∙ revoke-delete_sessions p.1 current active;
              },
            )
      ]

  -- A DELETE that succeeds has deactivated the user that there was, and its reply shows an inactive
  -- user. The identity is replaced and not deleted.
  pub deactivate_user-IsDeactivated :
      (w w' : k.World) (id token_id : String) (user : ScimUser)
      → deactivate_user k w id token_id ≡ (ok user, w')
      → (current : Identity) × (i : Identity) × (k.get w id ≡ ok current)
        × IsDeactivated w current i w'
        × (user ≡ to_scim_user i)
        × (user.active ≡ false)
  unfolding deactivate_user to_scim_user
  deactivate_user-IsDeactivated w w' id token_id user h =
      elim (Result-cases (get_identity_or_404 k w id)) [
        | inl (e, f) ↦ cc (rw (deactivate_user, f) at h)
        | inr (current, f) ↦
            let (i, shown, d) =
              apply_identity_update-IsDeactivated w w' current (deactivation k current token_id)
                user refl refl (rw (deactivate_user, f) at h) in
            (
              current,
              i,
              found k w id current f,
              d,
              shown,
              ap (λ (x : ScimUser). x.active) shown ∙ ap (λ x. x == "active") d.inactive,
            )
      ]

-- ===== src/Scim/Refusals.antt =====
-- The SCIM requests that are refused.
use jinbe.Prelude.{
  ℕ, String, ◌≡◌, ap, sym, inl, inr, Option, none, some, List, [], ◌∷◌, ok, err, TextOps,
  Result-cases, Option-cases, split, or_else, truthy,
}
use jinbe.Kratos.{Kratos, Identity, update_identity, find_by_email}
use jinbe.Scim.{
  scim_error, passed_on, ScimUserInput, ScimUser, get_identity_or_404, email_from_input, get_user,
}
use jinbe.Scim.Writes.{
  ScimUpdate, Reply, identity_update, apply_identity_update, uniqueness, email_or_current,
  create_user, replace_user, deactivate_user, new_identity, posted,
}
use jinbe.Scim.Routes.{
  Request, get_one, post_one, put_one, patch_one, delete_one, ScimEffect, Response, sent,
  to_outcome, Outcome, authenticated, handle,
}
use jinbe.Scim.Patch.{PatchOperation, patch_user, patch_identity, no_changes, apply_operations}

module _ (k : Kratos) where
  -- a reply that is a refusal of the service itself leaves the server as it was
  abbrev KeepsWorld : k.World → Reply k → Type 0
  KeepsWorld w r =
      (n : ℕ) (t : Option String) (w' : k.World) → r ≡ (err (scim_error n t), w') → w' ≡ w

  apply_identity_update-KeepsWorld :
      (w : k.World) (current : Identity) (u : ScimUpdate)
      → KeepsWorld w (apply_identity_update k w current u)
  unfolding apply_identity_update
  apply_identity_update-KeepsWorld w current u n t w' h =
      elim (Result-cases (update_identity k w current.id (identity_update current u)).0) [
        | inl (e, f) ↦ cc (rw (apply_identity_update, f) at h)
        | inr (i, f) ↦ cc (rw (apply_identity_update, f) at h)
      ]

  module _ (js : TextOps) where
    create_user-KeepsWorld :
        (w : k.World) (body : ScimUserInput) (token_id : String)
        → KeepsWorld w (create_user k js w body token_id)
    unfolding create_user
    create_user-KeepsWorld w body token_id n t w' h =
        elim (Option-cases (truthy (email_from_input js body))) [
          | inl f ↦ cc (rw (create_user, f) at h)
          | inr (email, f) ↦ elim (Result-cases (find_by_email k w email)) [
            | inl (e, g) ↦ cc (rw (create_user, f, g) at h)
            | inr (found, g) ↦ elim (Option-cases found) [
              | inr (i, x) ↦ cc (rw (create_user, f, g, x) at h)
              | inl x ↦ elim (Result-cases (k.post w (new_identity email body token_id)).0) [
                | inl (e, y) ↦ cc (rw (create_user, f, g, x, posted, y) at h)
                | inr (i, y) ↦ cc (rw (create_user, f, g, x, posted, y) at h)
              ]
            ]
          ]
        ]

    replace_user-KeepsWorld :
        (w : k.World) (id token_id : String) (body : ScimUserInput)
        → KeepsWorld w (replace_user k js w id body token_id)
    unfolding replace_user
    replace_user-KeepsWorld w id token_id body n t w' h =
        elim (Result-cases (get_identity_or_404 k w id)) [
          | inl (e, f) ↦ cc (rw (replace_user, f) at h)
          | inr (current, f) ↦
              elim (Option-cases (uniqueness k w current id (email_or_current k js body current))) [
                | inr (e, g) ↦ cc (rw (replace_user, f, g) at h)
                | inl g ↦
                    apply_identity_update-KeepsWorld w current _ n t w'
                      (rw (replace_user, f, g) at h)
              ]
        ]

    patch_identity-KeepsWorld :
        (w : k.World) (current : Identity) (id token_id : String) (os : List PatchOperation)
        → KeepsWorld w (patch_identity k js w current id os token_id)
    unfolding patch_identity
    patch_identity-KeepsWorld w current id token_id os n t w' h =
        let start = no_changes (split (or_else current.content.traits.name "")) in
        elim (Result-cases (apply_operations js os start)) [
          | inl (e, f) ↦ cc (rw (patch_identity, f) at h)
          | inr (c, f) ↦ elim (Option-cases (uniqueness k w current id (truthy c.email))) [
            | inr (e, g) ↦ cc (rw (patch_identity, f, g) at h)
            | inl g ↦
                apply_identity_update-KeepsWorld w current _ n t w' (rw (patch_identity, f, g) at h)
          ]
        ]

    patch_user-KeepsWorld :
        (w : k.World) (id token_id : String) (os : List PatchOperation)
        → KeepsWorld w (patch_user k js w id os token_id)
    unfolding patch_user
    patch_user-KeepsWorld w id token_id [] n t w' h = cc
    patch_user-KeepsWorld w id token_id (o ∷ os) n t w' h =
        elim (Result-cases (get_identity_or_404 k w id)) [
          | inl (e, f) ↦ cc (rw (patch_user, f) at h)
          | inr (current, f) ↦
              patch_identity-KeepsWorld w current id token_id (o ∷ os) n t w'
                (rw (patch_user, f) at h)
        ]

    deactivate_user-KeepsWorld :
        (w : k.World) (id token_id : String) → KeepsWorld w (deactivate_user k w id token_id)
    unfolding deactivate_user
    deactivate_user-KeepsWorld w id token_id n t w' h =
        elim (Result-cases (get_identity_or_404 k w id)) [
          | inl (e, f) ↦ cc (rw (deactivate_user, f) at h)
          | inr (current, f) ↦
              apply_identity_update-KeepsWorld w current _ n t w' (rw (deactivate_user, f) at h)
        ]

    to_outcome-KeepsWorld :
        (f : ScimUser → Response × List ScimEffect) (w w' : k.World) (reply : Reply k) (n : ℕ)
        → ((user : ScimUser) → (f user).1 ≡ [] → (f user).0 ≡ sent n none → w' ≡ w)
        → KeepsWorld w reply
        → to_outcome k js f reply ≡ (sent n none, [], w')
        → w' ≡ w
    to_outcome-KeepsWorld f w w' (err (scim_error m t), v) n done keeps h =
        keeps m t w' (ap (λ x. (err (scim_error m t), x)) (ap (λ (o : Outcome k js). o.2) h))
    to_outcome-KeepsWorld f w w' (err (passed_on x), v) n done keeps h = cc
    to_outcome-KeepsWorld f w w' (ok user, v) n done keeps h =
        done user (ap (λ (o : Outcome k js). o.1) h) (ap (λ (o : Outcome k js). o.0) h)

    -- An authenticated request of which no event is sent, and that is answered without a user, has
    -- been refused, and the directory is as it was.
    pub handle-KeepsWorld :
        (w w' : k.World) (token_id : String) (q : Request) (n : ℕ)
        → handle k js w (some token_id) q ≡ (sent n none, [], w')
        → w' ≡ w
    unfolding handle authenticated
    handle-KeepsWorld w w' t (get_one x) n h =
        to_outcome-KeepsWorld _ w w' (get_user k w x, w) n (λ user a b. cc)
          (λ m c v e. sym (ap (λ (r : Reply k). r.1) e)) h
    handle-KeepsWorld w w' t (post_one body) n h =
        to_outcome-KeepsWorld _ w w' _ n (λ user a b. cc) (create_user-KeepsWorld w body t) h
    handle-KeepsWorld w w' t (put_one x body) n h =
        to_outcome-KeepsWorld _ w w' _ n (λ user a b. cc) (replace_user-KeepsWorld w x t body) h
    handle-KeepsWorld w w' t (patch_one x os) n h =
        to_outcome-KeepsWorld _ w w' _ n (λ user a b. cc) (patch_user-KeepsWorld w x t os) h
    handle-KeepsWorld w w' t (delete_one x) n h =
        to_outcome-KeepsWorld _ w w' _ n (λ user a b. cc) (deactivate_user-KeepsWorld w x t) h

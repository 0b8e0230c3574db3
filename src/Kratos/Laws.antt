-- ===== src/Kratos/Laws.antt =====
-- Reading back what a group update wrote, and what it leaves alone.
use jinbe.Prelude.{String, ◌≡◌, refl, sym, ap, ◌∙◌, some, List, [], ◌∷◌, ok}
use jinbe.Kratos.{
  Kratos, Identity, IdentityData, metadata_of, no_update, groups_of, merge_update, first_identity,
  get_user_groups, update_identity, update_user_groups,
}

module _ (k : Kratos) where
  -- The PUT that `update_user_groups` makes.
  abbrev regrouped : Identity → List String → IdentityData
  regrouped j groups =
      merge_update j.content (record no_update {
        metadata_admin = some (record (metadata_of j) { groups = some groups });
      })

  update_user_groups-put :
      (w : k.World) (email : String) (groups : List String) (j : Identity)
      → k.get_identities w email ≡ ok (j ∷ [])
      → k.get w j.id ≡ ok j
      → update_user_groups k w email groups ≡ k.put w j.id (regrouped j groups)
  unfolding update_user_groups
  update_user_groups-put w email groups j found held =
      rw (found, update_user_groups, first_identity) (rw (held, update_identity))

  groups_of-regrouped :
      (id : String) (j : Identity) (groups : List String)
      → groups_of (record { id = id; content = regrouped j groups }) ≡ groups
  unfolding groups_of merge_update
  groups_of-regrouped id j groups = refl

  email-regrouped :
      (j : Identity) (groups : List String)
      → (regrouped j groups).traits.email ≡ j.content.traits.email
  unfolding merge_update
  email-regrouped j groups = refl

  pub get_user_groups-found :
      (w : k.World) (email : String) (i : Identity)
      → k.get_identities w email ≡ ok (i ∷ [])
      → get_user_groups k w email ≡ ok (groups_of i)
  unfolding get_user_groups
  get_user_groups-found w email i found = rw (found, get_user_groups, first_identity)

  -- The groups that were written are the groups that are read.
  pub get_user_groups-update_user_groups :
      (w w' : k.World) (email : String) (groups : List String) (j i : Identity)
      → k.get_identities w email ≡ ok (j ∷ [])
      → k.get w j.id ≡ ok j
      → update_user_groups k w email groups ≡ (ok i, w')
      → get_user_groups k w' email ≡ ok groups
  get_user_groups-update_user_groups w w' email groups j i found held done =
      let put : k.put w j.id (regrouped j groups) ≡ (ok i, w') =
        sym (update_user_groups-put w email groups j found held) ∙ done in
      let read = k.get_identities-put w w' email _ i j found held (email-regrouped j groups) put in
      let written = k.put_content w w' j.id _ i put in
      get_user_groups-found w' email i read
      ∙ ap (λ x. ok (groups_of x)) written
      ∙ ap ok (groups_of-regrouped j.id j groups)

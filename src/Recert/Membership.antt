-- ===== src/Recert/Membership.antt =====
-- `removeGroupMembership`: the group is gone, and no other is.
use jinbe.Prelude.{
  String, ◌≡◌, ◌≢◌, refl, ap, subst, true, false, not, ◌==◌, eq_iff, eq_refl, List, [], ◌∷◌, Result,
  ok, err, arith, Bool-cases, inl, inr, includes, includes-filter, is_empty, filter,
}
use jinbe.Redis.{Redis}
use jinbe.Kratos.{Kratos, Identity, Failure, get_user_groups, without_group}
use jinbe.Recert.{RecertState, remove_if_member, with_directory, remove_group_membership}
use jinbe.Kratos.Laws.{get_user_groups-found, get_user_groups-update_user_groups}
use jinbe.Kratos.{groups_of, base_group}

without_group-removes :
    (group : String) (gs : List String)
    → group ≢ base_group
    → includes (without_group group gs) group ≡ false
unfolding without_group
without_group-removes group gs h = ground (
  arith,
  includes-filter (λ g. not (g == group)) gs group,
  eq_refl group,
  eq_iff base_group group,
)

includes-is_empty : (xs : List String) (g : String) → includes xs g ≡ true → is_empty xs ≡ false
includes-is_empty [] g h = cc
includes-is_empty (x ∷ xs) g h = refl

without_group-keeps :
    (group : String) (gs : List String) (g : String)
    → g ≢ group
    → includes gs g ≡ true
    → includes (without_group group gs) g ≡ true
unfolding without_group
without_group-keeps group gs g h k =
    let rest = filter (λ x. not (x == group)) gs in
    let here : includes rest g ≡ true =
      ground (arith, includes-filter (λ x. not (x == group)) gs g, eq_iff g group) in
    rw (includes-is_empty rest g here) here

module _ (redis : Redis) (kratos : Kratos) where
  -- What the subject of an item has in Kratos after the group was removed.
  pub record IsRemoved (w : kratos.World) (subject group : String) (before : List String)
      : Type 0 where
    pub after : List String
    pub groups : get_user_groups kratos w subject ≡ ok after
    pub removed : includes after group ≡ false
    pub others : (g : String) → g ≢ group → includes before g ≡ true → includes after g ≡ true

  with_directory-ok :
      (p : Result Failure Identity × kratos.World) (s t : RecertState redis kratos)
      → with_directory redis kratos p s ≡ (ok tt, t)
      → (i : Identity) × (p ≡ (ok i, t.directory))
  with_directory-ok (ok i, w) s t h = (i, ap (λ q. (ok i, q.1.directory)) h)
  with_directory-ok (err e, w) s t h = cc

  remove_if_member-IsRemoved :
      (subject group : String) (s t : RecertState redis kratos) (j : Identity)
      → group ≢ base_group
      → kratos.get_identities s.directory subject ≡ ok (j ∷ [])
      → kratos.get s.directory j.id ≡ ok j
      → get_user_groups kratos s.directory subject ≡ ok (groups_of j)
      → remove_if_member redis kratos subject group (groups_of j) s ≡ (ok tt, t)
      → IsRemoved t.directory subject group (groups_of j)
  unfolding remove_if_member
  remove_if_member-IsRemoved subject group s t j other found held read h =
      elim (Bool-cases (includes (groups_of j) group)) [
        | inr e ↦
            let same : s.directory ≡ t.directory = ap (λ q. q.1.directory) (rw e at h) in
            record {
              after = groups_of j;
              groups = subst (λ w. get_user_groups kratos w subject ≡ ok (groups_of j)) same read;
              removed = e;
              others = λ g _ k. k;
            }
        | inl e ↦
            let (i, written) = with_directory-ok _ s t (rw e at h) in
            record {
              after = without_group group (groups_of j);
              groups =
                  get_user_groups-update_user_groups kratos s.directory t.directory subject
                    (without_group group (groups_of j)) j i found held written;
              removed = without_group-removes group (groups_of j) other;
              others = without_group-keeps group (groups_of j);
            }
      ]

  -- Once the group of an item was removed, Kratos lists the subject without it and with every
  -- other group that the subject had. The group is not the default one, and Kratos knows one
  -- identity for the subject.
  pub remove_group_membership-IsRemoved :
      (subject group : String) (s t : RecertState redis kratos) (j : Identity)
      → group ≢ base_group
      → kratos.get_identities s.directory subject ≡ ok (j ∷ [])
      → kratos.get s.directory j.id ≡ ok j
      → remove_group_membership redis kratos subject group s ≡ (ok tt, t)
      → IsRemoved t.directory subject group (groups_of j)
  unfolding remove_group_membership
  remove_group_membership-IsRemoved subject group s t j other found held h =
      let read = get_user_groups-found kratos s.directory subject j found in
      remove_if_member-IsRemoved subject group s t j other found held read
        (rw (read, remove_group_membership) at h)

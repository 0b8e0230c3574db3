-- ===== src/Recert/Decisions/Effects.antt =====
-- What a decision leaves: the item as it is stored, and the groups of its subject in Kratos.
use jinbe.Prelude.{
  TextOps, ℕ, String, ◌≡◌, ◌≢◌, refl, sym, ap, subst, ◌∙◌, Bool, true, false, if◌then◌else◌, Option,
  some, List, [], ◌∷◌, Result, ok, err, Bool-cases, inl, inr, is_some, is_empty, filter,
}
use jinbe.Redis.{Redis}
use jinbe.Kratos.{Kratos}
use jinbe.Recert.{
  RecertState, RecertCampaign, RecertItem, RecertReport, revoked, kept, revoke_applied, is_pending,
  Error, get_items, get_report, set_item, set_report, remove_from_inbox, remove_group_membership,
  keep_items, finalize, must_keep,
}
use jinbe.Recert.Decisions.{apply_decision, mark_applied, complete_if_done, decide}
use jinbe.Kratos.{Identity, groups_of, base_group}
use jinbe.Recert.Decisions.{decided}
use jinbe.Recert.Decisions.Guards.{decide-IsAllowed}
use jinbe.Recert.Membership.{IsRemoved, remove_group_membership-IsRemoved}

module _ (redis : Redis) (kratos : Kratos) (js : TextOps) (now : ℕ) where
  abbrev St : Type 0
  St = RecertState redis kratos

  set_report-directory :
      (r : RecertReport) (s : St) → (set_report redis kratos r s).directory ≡ s.directory
  set_report-directory r s = elim (Bool-cases (is_some (get_report redis kratos s r.campaign_id))) [
    | inl e ↦ rw e refl
    | inr e ↦ rw e refl
  ]

  set_if-directory :
      (b : Bool) (i : RecertItem) (s : St)
      → (if b then set_item redis kratos i s else s).directory ≡ s.directory
  set_if-directory true i s = refl
  set_if-directory false i s = refl

  keep_items-directory :
      (items : List RecertItem) (s : St) → (keep_items redis kratos items s).directory ≡ s.directory
  unfolding keep_items
  keep_items-directory [] s = refl
  keep_items-directory (i ∷ is) s =
      keep_items-directory is _
      ∙ set_if-directory (must_keep i) (record i { outcome = some kept }) s

  complete_if_done-directory :
      (id : String) (c : RecertCampaign) (s : St)
      → (complete_if_done redis kratos js now id c s).directory ≡ s.directory
  unfolding complete_if_done finalize
  complete_if_done-directory id c s =
      elim (Bool-cases (
        is_empty
          (filter (λ (i : RecertItem). is_pending i.decision) (get_items redis kratos s id)))) [
            | inl e ↦
                rw (e, complete_if_done)
                  (set_report-directory _ _
                    ∙ keep_items-directory (get_items redis kratos s c.id) s)
            | inr e ↦ rw (e, complete_if_done) refl
          ]

  mark_applied-ok :
      (i done : RecertItem) (p : Result Error (Unit {0}) × St)
      → (mark_applied redis kratos js now i p).0 ≡ ok done
      → (p.0 ≡ ok tt)
        × (done ≡ record i { outcome = some revoke_applied })
        × ((mark_applied redis kratos js now i p).1 ≡ p.1)
  unfolding mark_applied
  mark_applied-ok i done (err e, s) h = cc
  mark_applied-ok i done (ok u, s) h = (refl, cc, refl)

  apply_decision-revoked :
      (i done : RecertItem) (s : St)
      → i.decision ≡ revoked
      → (apply_decision redis kratos js now i s).0 ≡ ok done
      → (done ≡ record i { outcome = some revoke_applied })
        × (remove_group_membership redis kratos i.subject i.group s
            ≡ (ok tt, (apply_decision redis kratos js now i s).1))
  unfolding apply_decision
  apply_decision-revoked i done s d h =
      let p = remove_group_membership redis kratos i.subject i.group s in
      let opened : apply_decision redis kratos js now i s ≡ mark_applied redis kratos js now i p =
        rw (d, apply_decision) refl in
      let (went, same, left) = mark_applied-ok i done p (sym (ap (λ q. q.0) opened) ∙ h) in
      (same, ap (λ r. (r, p.1)) went ∙ ap (λ x. (ok tt, x)) (sym (ap (λ q. q.1) opened ∙ left)))

  -- A revocation that is recorded has taken effect: Kratos lists the subject without the group and
  -- with all others, and the item says so. The group is not the default one, and Kratos knows one
  -- identity for the subject.
  pub decide-IsRemoved :
      (campaign_id item_id : String) (comment actor : Option String) (s t : St) (done : RecertItem)
      (j : Identity)
      → decide redis kratos js now campaign_id item_id revoked comment actor s ≡ (ok done, t)
      → done.group ≢ base_group
      → kratos.get_identities s.directory done.subject ≡ ok (j ∷ [])
      → kratos.get s.directory j.id ≡ ok j
      → (done.outcome ≡ some revoke_applied)
        × IsRemoved redis kratos t.directory done.subject done.group (groups_of j)
  decide-IsRemoved campaign_id item_id comment actor s t done j h other found held =
      let (a, allowed, recorded) =
        decide-IsAllowed redis kratos js now s t campaign_id item_id revoked comment actor done h in
      let i = decided redis kratos js now a.item revoked a.by comment in
      let (same, removed) = apply_decision-revoked i done s refl recorded.applied in
      let u = (apply_decision redis kratos js now i s).1 in
      let left : t.directory ≡ u.directory =
        ap (λ (x : St). x.directory) recorded.final
        ∙ complete_if_done-directory campaign_id a.campaign (
            remove_from_inbox redis kratos js done.reviewer campaign_id item_id
              (set_item redis kratos done u)) in
      let subject_eq : done.subject ≡ i.subject = ap (λ (x : RecertItem). x.subject) same in
      let group_eq : done.group ≡ i.group = ap (λ (x : RecertItem). x.group) same in
      (
        ap (λ (x : RecertItem). x.outcome) same,
        subst (λ w. IsRemoved redis kratos w done.subject done.group (groups_of j)) (sym left)
            (remove_group_membership-IsRemoved redis kratos done.subject done.group s u j other
              found held
              (ap (λ e. remove_group_membership redis kratos e done.group s) subject_eq
                ∙ ap (λ g. remove_group_membership redis kratos i.subject g s) group_eq
                ∙ removed)),
      )

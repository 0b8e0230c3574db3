-- ===== src/Recert/Frames.antt =====
-- What the methods leave of the hashes of campaigns and of reports, when they work on items,
-- inboxes and groups.
use jinbe.Prelude.{
  TextOps, ℕ, String, ◌≡◌, refl, ap, ◌∙◌, Bool, true, false, if◌then◌else◌, some, List, [], ◌∷◌,
  Result, ok, err, arith, eq_iff, Bool-cases, Result-cases, inl, inr, is_some, includes,
}
use jinbe.Redis.{Redis}
use jinbe.Kratos.{Kratos, Failure, get_user_groups}
use jinbe.Recert.{
  RecertState, RecertCampaign, RecertItem, RecertReport, OnExpiry, revoke, flag, kept, completed,
  is_pending, Error, get_items, get_report, set_item, set_report, remove_from_inbox, add_to_inbox,
  remove_if_member, with_directory, remove_group_membership, keep_items, finalize, must_keep,
}
use jinbe.Recert.Campaigns.{remove_refs}
use jinbe.Recert.Generation.{store_items, fill_inboxes}
use jinbe.Recert.Decisions.{is_revoked, apply_decision, mark_applied}
use jinbe.Recert.Closing.{settle_removed, expire_item, close_item, close_items}

module _ (redis : Redis) (kratos : Kratos) (js : TextOps) (now : ℕ) where
  abbrev St : Type 0
  St = RecertState redis kratos

  abbrev stored : St → redis.Hash RecertCampaign × redis.Hash RecertReport
  stored s = (s.campaigns, s.reports)

  with_directory-stored :
      {A : Type 0} (p : Result Failure A × kratos.World) (s : St)
      → stored (with_directory redis kratos p s).1 ≡ stored s
  with_directory-stored (ok a, w) s = refl
  with_directory-stored (err e, w) s = refl

  remove_if_member-stored :
      (subject group : String) (current : List String) (s : St)
      → stored (remove_if_member redis kratos subject group current s).1 ≡ stored s
  unfolding remove_if_member
  remove_if_member-stored subject group current s = elim (Bool-cases (includes current group)) [
    | inr e ↦ rw e refl
    | inl e ↦ rw e (with_directory-stored _ s)
  ]

  remove_group_membership-stored :
      (subject group : String) (s : St)
      → stored (remove_group_membership redis kratos subject group s).1 ≡ stored s
  unfolding remove_group_membership
  remove_group_membership-stored subject group s =
      elim (Result-cases (get_user_groups kratos s.directory subject)) [
        | inl (e, h) ↦ rw (h, remove_group_membership) refl
        | inr (current, h) ↦
            rw (h, remove_group_membership) (remove_if_member-stored subject group current s)
      ]

  set_if-stored :
      (b : Bool) (i : RecertItem) (s : St)
      → stored (if b then set_item redis kratos i s else s) ≡ stored s
  set_if-stored true i s = refl
  set_if-stored false i s = refl

  keep_items-stored :
      (items : List RecertItem) (s : St) → stored (keep_items redis kratos items s) ≡ stored s
  unfolding keep_items
  keep_items-stored [] s = refl
  keep_items-stored (i ∷ is) s =
      keep_items-stored is _ ∙ set_if-stored (must_keep i) (record i { outcome = some kept }) s

  store_items-stored :
      (items : List RecertItem) (s : St) → stored (store_items redis kratos js items s) ≡ stored s
  unfolding store_items
  store_items-stored [] s = refl
  store_items-stored (i ∷ is) s = store_items-stored is (set_item redis kratos i s)

  fill_inboxes-stored :
      (items : List RecertItem) (s : St) → stored (fill_inboxes redis kratos js items s) ≡ stored s
  unfolding fill_inboxes
  fill_inboxes-stored [] s = refl
  fill_inboxes-stored (i ∷ is) s = fill_inboxes-stored is (add_to_inbox redis kratos js i s)

  remove_refs-stored :
      (id : String) (items : List RecertItem) (s : St)
      → stored (remove_refs redis kratos js now id items s) ≡ stored s
  unfolding remove_refs
  remove_refs-stored id [] s = refl
  remove_refs-stored id (i ∷ is) s =
      remove_refs-stored id is (remove_from_inbox redis kratos js i.reviewer id i.id s)

  settle_removed-stored :
      (id : String) (item : RecertItem) (p : Result Error (Unit {0}) × St)
      → stored (settle_removed redis kratos js now id item p).1 ≡ stored (p.1)
  unfolding settle_removed
  settle_removed-stored id item (err e, s) = refl
  settle_removed-stored id item (ok u, s) = refl

  expire_item-stored :
      (id : String) (on_expiry : OnExpiry) (item : RecertItem) (s : St)
      → stored (expire_item redis kratos js now id on_expiry item s).1 ≡ stored s
  unfolding expire_item
  expire_item-stored id revoke item s =
      settle_removed-stored id item _ ∙ remove_group_membership-stored item.subject item.group s
  expire_item-stored id flag item s = refl

  close_item-stored :
      (id : String) (on_expiry : OnExpiry) (item : RecertItem) (s : St)
      → stored (close_item redis kratos js now id on_expiry item s).1 ≡ stored s
  unfolding close_item
  close_item-stored id on_expiry item s = elim (Bool-cases (is_pending item.decision)) [
    | inl e ↦ rw e (expire_item-stored id on_expiry item s)
    | inr e ↦ rw e refl
  ]

  close_items-stored :
      (id : String) (on_expiry : OnExpiry) (items : List RecertItem) (s : St)
      → stored (close_items redis kratos js now id on_expiry items s).1 ≡ stored s
  unfolding close_items
  close_items-stored id on_expiry [] s = refl
  close_items-stored id on_expiry (item ∷ items) s =
      let (r, t) = close_item redis kratos js now id on_expiry item s in
      let same = close_item-stored id on_expiry item s in
      elim (Result-cases r) [
        | inl (e, h) ↦ rw (h, close_items) same
        | inr (u, h) ↦ rw (h, close_items) (close_items-stored id on_expiry items t ∙ same)
      ]

  mark_applied-stored :
      (i : RecertItem) (p : Result Error (Unit {0}) × St)
      → stored (mark_applied redis kratos js now i p).1 ≡ stored (p.1)
  unfolding mark_applied
  mark_applied-stored i (err e, s) = refl
  mark_applied-stored i (ok u, s) = refl

  apply_decision-stored :
      (i : RecertItem) (s : St) → stored (apply_decision redis kratos js now i s).1 ≡ stored s
  unfolding apply_decision
  apply_decision-stored i s = elim (Bool-cases (is_revoked i.decision)) [
    | inl e ↦ rw e (mark_applied-stored i _ ∙ remove_group_membership-stored i.subject i.group s)
    | inr e ↦ rw e refl
  ]

  pub set_report-campaigns :
      (r : RecertReport) (s : St) → (set_report redis kratos r s).campaigns ≡ s.campaigns
  set_report-campaigns r s = elim (Bool-cases (is_some (get_report redis kratos s r.campaign_id))) [
    | inl e ↦ rw e refl
    | inr e ↦ rw e refl
  ]

  pub finalize-campaigns :
      (c : RecertCampaign) (s : St)
      → (finalize redis kratos now c s).campaigns
        ≡ redis.hset RecertCampaign s.campaigns c.id
            (record c { status = completed; closed_at = some now })
  unfolding finalize
  finalize-campaigns c s =
      set_report-campaigns _ _
      ∙ ap
          (λ h.
            redis.hset RecertCampaign h c.id
              (record c { status = completed; closed_at = some now }))
          (ap (λ p. p.0) (keep_items-stored (get_items redis kratos s c.id) s))

  set_report-get_report :
      (r : RecertReport) (s : St) (id : String) (old : RecertReport)
      → get_report redis kratos s id ≡ some old
      → get_report redis kratos (set_report redis kratos r s) id ≡ some old
  set_report-get_report r s id old h =
      ground
        (arith, eq_iff r.campaign_id id, redis.hget-hset RecertReport s.reports r.campaign_id id r)

  pub finalize-get_report :
      (c : RecertCampaign) (s : St) (id : String) (old : RecertReport)
      → get_report redis kratos s id ≡ some old
      → get_report redis kratos (finalize redis kratos now c s) id ≡ some old
  unfolding finalize
  finalize-get_report c s id old h = set_report-get_report _ _ id old (
      ap (λ p. redis.hget RecertReport p.1 id) (keep_items-stored (get_items redis kratos s c.id) s)
      ∙ h)

  pub store_items-campaigns :
      (items : List RecertItem) (s : St)
      → (store_items redis kratos js items s).campaigns ≡ s.campaigns
  store_items-campaigns items s = ap (λ p. p.0) (store_items-stored items s)

  pub store_items-reports :
      (items : List RecertItem) (s : St) → (store_items redis kratos js items s).reports ≡ s.reports
  store_items-reports items s = ap (λ p. p.1) (store_items-stored items s)

  pub fill_inboxes-campaigns :
      (items : List RecertItem) (s : St)
      → (fill_inboxes redis kratos js items s).campaigns ≡ s.campaigns
  fill_inboxes-campaigns items s = ap (λ p. p.0) (fill_inboxes-stored items s)

  pub fill_inboxes-reports :
      (items : List RecertItem) (s : St)
      → (fill_inboxes redis kratos js items s).reports ≡ s.reports
  fill_inboxes-reports items s = ap (λ p. p.1) (fill_inboxes-stored items s)

  pub remove_refs-campaigns :
      (id : String) (items : List RecertItem) (s : St)
      → (remove_refs redis kratos js now id items s).campaigns ≡ s.campaigns
  remove_refs-campaigns id items s = ap (λ p. p.0) (remove_refs-stored id items s)

  pub remove_refs-reports :
      (id : String) (items : List RecertItem) (s : St)
      → (remove_refs redis kratos js now id items s).reports ≡ s.reports
  remove_refs-reports id items s = ap (λ p. p.1) (remove_refs-stored id items s)

  pub close_items-campaigns :
      (id : String) (on_expiry : OnExpiry) (items : List RecertItem) (s : St)
      → (close_items redis kratos js now id on_expiry items s).1.campaigns ≡ s.campaigns
  close_items-campaigns id on_expiry items s =
      ap (λ p. p.0) (close_items-stored id on_expiry items s)

  pub close_items-reports :
      (id : String) (on_expiry : OnExpiry) (items : List RecertItem) (s : St)
      → (close_items redis kratos js now id on_expiry items s).1.reports ≡ s.reports
  close_items-reports id on_expiry items s = ap (λ p. p.1) (close_items-stored id on_expiry items s)

  pub apply_decision-campaigns :
      (i : RecertItem) (s : St) → (apply_decision redis kratos js now i s).1.campaigns ≡ s.campaigns
  apply_decision-campaigns i s = ap (λ p. p.0) (apply_decision-stored i s)

  pub apply_decision-reports :
      (i : RecertItem) (s : St) → (apply_decision redis kratos js now i s).1.reports ≡ s.reports
  apply_decision-reports i s = ap (λ p. p.1) (apply_decision-stored i s)

-- ===== src/Recert/Closing/Loops.antt =====
-- The loops of `closeCampaign` and of `finalize`, as walks over the hash of items.
use jinbe.Prelude.{
  TextOps, ℕ, String, ◌≡◌, refl, sym, ap, ◌∙◌, Bool, true, false, eq_refl, if◌then◌else◌, some,
  List, [], ◌∷◌, Result, ok, err, Bool-cases, Result-cases, inl, inr, All, includes,
}
use jinbe.Redis.{Redis}
use jinbe.Kratos.{Kratos, Failure, get_user_groups}
use jinbe.Recert.{
  RecertState, RecertItem, OnExpiry, revoke, flag, kept, auto_revoked, flagged, get_item,
  is_pending, Error, set_item, remove_if_member, with_directory, remove_group_membership,
  keep_items, must_keep,
}
use jinbe.Recert.Closing.{settle_removed, expire_item, close_item, close_items}
use jinbe.Recert.Sweep.{sweep, AreKeyed}

-- the consequence for an item that is still pending
abbrev pub expired : OnExpiry → RecertItem → RecertItem
expired revoke i = record i { outcome = some auto_revoked }
expired flag i = record i { outcome = some flagged }

abbrev pub pending_item : RecertItem → Bool
pending_item i = is_pending i.decision

-- an item that a completed campaign keeps as it is
abbrev pub kept_item : RecertItem → RecertItem
kept_item i = record i { outcome = some kept }

module _ (redis : Redis) (kratos : Kratos) (js : TextOps) (now : ℕ) (id : String) where
  abbrev St : Type 0
  St = RecertState redis kratos

  -- Each item is stored under its own id, and names the campaign it is stored for.
  unfoldable pub AreFiled : St → Type 0
  AreFiled s =
      AreKeyed redis (s.items id)
      × ((k : String) (i : RecertItem) → get_item redis kratos s id k ≡ some i → i.campaign_id ≡ id)

  pub set_item-items :
      (i : RecertItem) (s : St)
      → i.campaign_id ≡ id
      → (set_item redis kratos i s).items id ≡ redis.hset RecertItem (s.items id) i.id i
  set_item-items i s h = rw h (rw (eq_refl id) refl)

  with_directory-items :
      {A : Type 0} (p : Result Failure A × kratos.World) (s : St)
      → (with_directory redis kratos p s).1.items ≡ s.items
  with_directory-items (ok a, w) s = refl
  with_directory-items (err e, w) s = refl

  remove_if_member-items :
      (subject group : String) (current : List String) (s : St)
      → (remove_if_member redis kratos subject group current s).1.items ≡ s.items
  unfolding remove_if_member
  remove_if_member-items subject group current s = elim (Bool-cases (includes current group)) [
    | inr e ↦ rw e refl
    | inl e ↦ rw e (with_directory-items _ s)
  ]

  pub remove_group_membership-items :
      (subject group : String) (s : St)
      → (remove_group_membership redis kratos subject group s).1.items ≡ s.items
  unfolding remove_group_membership
  remove_group_membership-items subject group s =
      elim (Result-cases (get_user_groups kratos s.directory subject)) [
        | inl (e, h) ↦ rw (h, remove_group_membership) refl
        | inr (current, h) ↦
            rw (h, remove_group_membership) (remove_if_member-items subject group current s)
      ]

  settle_removed-ok :
      (item : RecertItem) (p : Result Error (Unit {0}) × St) (t : St)
      → item.campaign_id ≡ id
      → settle_removed redis kratos js now id item p ≡ (ok tt, t)
      → t.items id ≡ redis.hset RecertItem (p.1.items id) item.id (expired revoke item)
  unfolding settle_removed
  settle_removed-ok item (err e, s) t same h = cc
  settle_removed-ok item (ok u, s) t same h =
      ap (λ q. q.1.items id) (sym h) ∙ set_item-items (expired revoke item) s same

  expire_item-ok :
      (on_expiry : OnExpiry) (item : RecertItem) (s t : St)
      → item.campaign_id ≡ id
      → expire_item redis kratos js now id on_expiry item s ≡ (ok tt, t)
      → t.items id ≡ redis.hset RecertItem (s.items id) item.id (expired on_expiry item)
  unfolding expire_item
  expire_item-ok revoke item s t same h =
      settle_removed-ok item _ t same h
      ∙ ap (λ m. redis.hset RecertItem (m id) item.id (expired revoke item))
          (remove_group_membership-items item.subject item.group s)
  expire_item-ok flag item s t same h =
      ap (λ q. q.1.items id) (sym h) ∙ set_item-items (expired flag item) s same

  close_item-ok :
      (on_expiry : OnExpiry) (item : RecertItem) (s t : St)
      → item.campaign_id ≡ id
      → close_item redis kratos js now id on_expiry item s ≡ (ok tt, t)
      → t.items id ≡ (
          if pending_item item
          then redis.hset RecertItem (s.items id) item.id (expired on_expiry item)
          else s.items id)
  unfolding close_item
  close_item-ok on_expiry item s t same h = elim (Bool-cases (is_pending item.decision)) [
    | inl e ↦ rw e (expire_item-ok on_expiry item s t same (rw e at h))
    | inr e ↦ rw e (ap (λ q. q.1.items id) (sym (rw e at h)))
  ]

  -- The loop of `closeCampaign`, when it comes to its end, is a walk over the items.
  pub close_items-sweep :
      (on_expiry : OnExpiry) (items : List RecertItem) (s t : St)
      → All (λ (i : RecertItem). i.campaign_id ≡ id) items
      → close_items redis kratos js now id on_expiry items s ≡ (ok tt, t)
      → t.items id ≡ sweep redis pending_item (expired on_expiry) items (s.items id)
  unfolding close_items sweep
  close_items-sweep on_expiry [] s t a h = ap (λ q. q.1.items id) (sym h)
  close_items-sweep on_expiry (i ∷ is) s t (same, a) h =
      elim (Result-cases (close_item redis kratos js now id on_expiry i s).0) [
        | inl (e, failed) ↦ cc (rw (failed, close_items) at h)
        | inr (u, went) ↦
            let u' = (close_item redis kratos js now id on_expiry i s).1 in
            close_items-sweep on_expiry is u' t a (rw (went, close_items) at h)
            ∙ ap (λ m. sweep redis pending_item (expired on_expiry) is m)
                (close_item-ok on_expiry i s u' same (ap (λ r. (r, u')) went))
      ]

  keep_one :
      (b : Bool) (i : RecertItem) (s : St)
      → i.campaign_id ≡ id
      → (if b then set_item redis kratos (kept_item i) s else s).items id
        ≡ (if b then redis.hset RecertItem (s.items id) i.id (kept_item i) else s.items id)
  keep_one true i s same = set_item-items (kept_item i) s same
  keep_one false i s same = refl

  pub keep_items-sweep :
      (items : List RecertItem) (s : St)
      → All (λ (i : RecertItem). i.campaign_id ≡ id) items
      → (keep_items redis kratos items s).items id
        ≡ sweep redis must_keep kept_item items (s.items id)
  unfolding keep_items sweep
  keep_items-sweep [] s a = refl
  keep_items-sweep (i ∷ is) s (same, a) =
      keep_items-sweep is _ a
      ∙ ap (λ m. sweep redis must_keep kept_item is m) (keep_one (must_keep i) i s same)

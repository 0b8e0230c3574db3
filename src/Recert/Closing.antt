-- ===== src/Recert/Closing.antt =====
-- `closeCampaign`: what is still pending gets the campaign's consequence, and the campaign is
-- completed. An error of Kratos ends the loop where it stands.
pub mod Loops
pub mod Outcomes
pub mod Flagging
mod Tests
use jinbe.Prelude.{
  TextOps, ℕ, String, Bool, true, false, not, if◌then◌else◌, Option, none, some, List, [], ◌∷◌,
  Result, ok, err,
}
use jinbe.Redis.{Redis}
use jinbe.Kratos.{Kratos}
use jinbe.Recert.{
  RecertState, RecertCampaign, RecertItem, Action, OnExpiry, revoke, flag, completed, closing,
  auto_revoked, flagged, Error, recert_error, is_pending, is_active, get_campaign, get_items,
  set_item, set_campaign, remove_from_inbox, remove_group_membership, finalize,
}

module _ (redis : Redis) (kratos : Kratos) (js : TextOps) (now : ℕ) where
  -- the item with its outcome is stored, and leaves the reviewer's inbox
  abbrev pub settle : String → RecertItem → RecertState redis kratos → RecertState redis kratos
  settle id item s =
      remove_from_inbox redis kratos js item.reviewer id item.id (set_item redis kratos item s)

  unfoldable pub settle_removed :
      String
      → RecertItem
      → Result Error (Unit {0}) × RecertState redis kratos
      → Result Error (Unit {0}) × RecertState redis kratos
  settle_removed id item (err e, s) = (err e, s)
  settle_removed id item (ok u, s) =
      (ok tt, settle id (record item { outcome = some auto_revoked }) s)

  unfoldable pub expire_item : String → OnExpiry → RecertItem → Action redis kratos (Unit {0})
  unfolding settle_removed
  expire_item id revoke item s =
      settle_removed id item (remove_group_membership redis kratos item.subject item.group s)
  expire_item id flag item s = (ok tt, settle id (record item { outcome = some flagged }) s)

  -- one round of the loop
  unfoldable pub close_item : String → OnExpiry → RecertItem → Action redis kratos (Unit {0})
  unfolding expire_item
  close_item id on_expiry item s =
      if is_pending item.decision then expire_item id on_expiry item s else (ok tt, s)

  unfoldable pub close_items : String → OnExpiry → List RecertItem → Action redis kratos (Unit {0})
  unfolding close_item
  close_items id on_expiry [] s = (ok tt, s)
  close_items id on_expiry (item ∷ items) s =
      let (r, t) = close_item id on_expiry item s in
      elim r [ err e ↦ (err e, t) | ok u ↦ close_items id on_expiry items t ]

  abbrev pub completed_campaign : RecertCampaign → RecertCampaign
  completed_campaign c = record c { status = completed; closed_at = some now }

  unfoldable pub finish :
      RecertCampaign
      → Result Error (Unit {0}) × RecertState redis kratos
      → Result Error RecertCampaign × RecertState redis kratos
  finish c (err e, s) = (err e, s)
  finish c (ok u, s) = (ok (completed_campaign c), finalize redis kratos now c s)

  -- the callback that `closeCampaign` runs under the lock of the campaign
  unfoldable pub close_campaign : String → Action redis kratos RecertCampaign
  unfolding finish
  close_campaign id s = elim (get_campaign redis kratos s id) [
    | none ↦ (err (recert_error 404), s)
    | some c ↦
        if is_active c.status
        then (let c' = record c { status = closing } in
            let s' = set_campaign redis kratos c' s in
            finish c' (close_items id c.on_expiry (get_items redis kratos s' id) s'))
        else (err (recert_error 409), s)
  ]

  -- `closeCampaign`. The lock may be refused: another call holds it until the wait is over.
  unfoldable pub close_under_lock : Bool → String → Action redis kratos RecertCampaign
  unfolding close_campaign
  close_under_lock granted id s =
      if granted then close_campaign id s else (err (recert_error 503), s)

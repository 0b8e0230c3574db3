-- ===== src/Recert/Closing/Flagging.antt =====
-- Closing without a request to Kratos.
use jinbe.Prelude.{
  TextOps, ℕ, String, ◌≡◌, refl, sym, subst, some, List, [], ◌∷◌, Result, ok, err, Bool-cases, Bool,
  true, false, if◌then◌else◌, inl, inr,
}
use jinbe.Redis.{Redis}
use jinbe.Kratos.{Kratos}
use jinbe.Recert.{
  RecertState, RecertCampaign, RecertItem, flag, active, completed, is_pending, Error, recert_error,
  get_campaign, get_items, set_campaign,
}
use jinbe.Recert.Closing.{
  expire_item, close_item, close_items, close_campaign, finish, close_under_lock,
}
use jinbe.Recert.Lifecycle.Closing.{closing_campaign}

module _ (redis : Redis) (kratos : Kratos) (js : TextOps) (now : ℕ) where
  close_item-flag :
      (id : String) (i : RecertItem) (s : RecertState redis kratos)
      → (close_item redis kratos js now id flag i s).0 ≡ ok tt
  unfolding close_item expire_item
  close_item-flag id i s = elim (Bool-cases (is_pending i.decision)) [
    | inl e ↦ rw e refl
    | inr e ↦ rw e refl
  ]

  close_items-flag :
      (id : String) (items : List RecertItem) (s : RecertState redis kratos)
      → (close_items redis kratos js now id flag items s).0 ≡ ok tt
  unfolding close_items
  close_items-flag id [] s = refl
  close_items-flag id (i ∷ is) s =
      let t = (close_item redis kratos js now id flag i s).1 in
      rw (close_item-flag id i s, close_items) (close_items-flag id is t)

  finish-went :
      (c : RecertCampaign) (p : Result Error (Unit {0}) × RecertState redis kratos)
      → p.0 ≡ ok tt
      → (finish redis kratos js now c p).0
        ≡ ok (record c { status = completed; closed_at = some now })
  unfolding finish
  finish-went c (err e, s) h = cc
  finish-went c (ok u, s) h = refl

  went-flag :
      (id : String) (s : RecertState redis kratos) (c : RecertCampaign)
      → get_campaign redis kratos s id ≡ some c
      → c.status ≡ active
      → c.on_expiry ≡ flag
      → (close_campaign redis kratos js now id s).0
        ≡ ok (record c { status = completed; closed_at = some now })
  unfolding close_campaign
  went-flag id s c found is_open flags =
      let s' = set_campaign redis kratos (closing_campaign c) s in
      let items = get_items redis kratos s' id in
      let went =
        subst (λ o. (close_items redis kratos js now id o items s').0 ≡ ok tt) (sym flags)
          (close_items-flag id items s') in
      rw (found, close_campaign, is_open)
        (finish-went (closing_campaign c) (close_items redis kratos js now id c.on_expiry items s')
          went)

  -- Closing an active campaign whose consequence is to flag succeeds whatever Kratos does, if the lock of
  -- the campaign is granted; if it is refused, the answer is the error 503.
  pub close_campaign-flag :
      (granted : Bool) (id : String) (s : RecertState redis kratos) (c : RecertCampaign)
      → get_campaign redis kratos s id ≡ some c
      → c.status ≡ active
      → c.on_expiry ≡ flag
      → (close_under_lock redis kratos js now granted id s).0 ≡ (
          if granted
          then ok (record c { status = completed; closed_at = some now })
          else err (recert_error 503))
  unfolding close_under_lock
  close_campaign-flag true id s c found is_open flags = went-flag id s c found is_open flags
  close_campaign-flag false id s c found is_open flags = refl

-- ===== src/Recert/Decisions.antt =====
-- `decide`: a reviewer approves or revokes one membership.
pub mod Guards
pub mod Effects
pub mod Stored
use jinbe.Prelude.{
  TextOps, ℕ, String, Bool, true, false, not, ◌&&◌, ◌==◌, if◌then◌else◌, Option, none, some, List,
  [], ◌∷◌, Result, ok, err, filter, is_empty, is_none, ◌||◌,
}
use jinbe.Redis.{Redis}
use jinbe.Kratos.{Kratos}
use jinbe.Recert.{
  RecertState, RecertCampaign, RecertItem, Action, Decision, pending, approved, revoked,
  revoke_applied, Error, recert_error, is_pending, is_active, get_campaign, get_item, get_items,
  set_item, remove_from_inbox, norm, remove_group_membership, finalize,
}

abbrev pub is_revoked : Decision → Bool
is_revoked revoked = true
is_revoked _ = false

module _ (js : TextOps) where
  -- `comment?.trim()`, where an empty text counts as none
  abbrev pub trimmed : Option String → Option String
  trimmed none = none
  trimmed (some c) = if js.trim c == "" then none else some (js.trim c)

module _ (redis : Redis) (kratos : Kratos) (js : TextOps) (now : ℕ) where
  -- `actor.email ? norm(actor.email) : null`, where an empty text counts as none
  abbrev pub decider : Option String → Option String
  decider none = none
  decider (some email) = if email == "" || norm js email == "" then none else some (norm js email)

  -- the item with the decision on it, before the group is removed
  abbrev pub decided : RecertItem → Decision → String → Option String → RecertItem
  decided i d by comment = record i {
    decision = d;
    decided_by = some by;
    decided_at = some now;
    comment = elim (trimmed js comment) [ none ↦ i.comment | some c ↦ some c ];
  }

  unfoldable pub mark_applied :
      RecertItem
      → Result Error (Unit {0}) × RecertState redis kratos
      → Result Error RecertItem × RecertState redis kratos
  mark_applied i (err e, s) = (err e, s)
  mark_applied i (ok u, s) = (ok (record i { outcome = some revoke_applied }), s)

  unfoldable pub apply_decision : RecertItem → Action redis kratos RecertItem
  unfolding mark_applied
  apply_decision i s =
      if is_revoked i.decision
      then mark_applied i (remove_group_membership redis kratos i.subject i.group s)
      else (ok i, s)

  -- the last pending decision completes the campaign
  unfoldable pub complete_if_done :
      String → RecertCampaign → RecertState redis kratos → RecertState redis kratos
  complete_if_done campaign_id c s =
      let remaining =
        filter (λ (i : RecertItem). is_pending i.decision) (get_items redis kratos s campaign_id) in
      if is_empty remaining then finalize redis kratos now c s else s

  -- what the guards of `decide` leave: who decides, on which item of which campaign
  pub record Admitted : Type 0 where
    pub by : String
    pub campaign : RecertCampaign
    pub item : RecertItem

  admit_item :
      Decision → Option String → String → RecertCampaign → Option RecertItem → Result Error Admitted
  admit_item d comment by campaign none = err (recert_error 404)
  admit_item d comment by campaign (some item) =
      if not (is_pending item.decision)
      then err (recert_error 409)
      else if norm js item.subject == by
      then err (recert_error 403)
      else if is_revoked d && is_none (trimmed js comment)
      then err (recert_error 400)
      else ok (record { by = by; campaign = campaign; item = item })

  admit_campaign :
      Decision
      → Option String
      → String
      → Option RecertItem
      → Option RecertCampaign
      → Result Error Admitted
  unfolding admit_item
  admit_campaign d comment by item none = err (recert_error 404)
  admit_campaign d comment by item (some campaign) =
      if is_active campaign.status
      then admit_item d comment by campaign item
      else err (recert_error 409)

  unfoldable pub admit :
      String
      → String
      → Decision
      → Option String
      → Option String
      → RecertState redis kratos
      → Result Error Admitted
  unfolding admit_campaign
  admit campaign_id item_id d comment actor s = elim (decider actor) [
    | none ↦ err (recert_error 401)
    | some by ↦
        admit_campaign d comment by (get_item redis kratos s campaign_id item_id)
          (get_campaign redis kratos s campaign_id)
  ]

  -- the rest of `decide`, from the application of the decision on
  unfoldable pub record_decision :
      String
      → String
      → RecertCampaign
      → Result Error RecertItem × RecertState redis kratos
      → Result Error RecertItem × RecertState redis kratos
  record_decision campaign_id item_id campaign (err e, s) = (err e, s)
  record_decision campaign_id item_id campaign (ok done, s) = (
    ok done,
    complete_if_done campaign_id campaign (
        remove_from_inbox redis kratos js done.reviewer campaign_id item_id
          (set_item redis kratos done s)),
  )

  unfoldable pub decide :
      String → String → Decision → Option String → Option String → Action redis kratos RecertItem
  unfolding admit record_decision
  decide campaign_id item_id d comment actor s =
      elim (admit campaign_id item_id d comment actor s) [
        | err e ↦ (err e, s)
        | ok a ↦
            record_decision campaign_id item_id a.campaign
              (apply_decision (decided a.item d a.by comment) s)
      ]

-- ===== src/Recert/Lifecycle.antt =====
-- The states of a campaign, and how a method may move them.
pub mod Steps
pub mod Closing
use jinbe.Prelude.{
  TextOps, ℕ, String, ◌≡◌, ◌≢◌, refl, sym, ap, subst, ◌∙◌, Bool, true, false, not, ◌==◌, eq_iff,
  eq_refl, if◌then◌else◌, Option, none, some, List, [], ◌∷◌, Result, ok, err, arith, Option-cases,
  Bool-cases, Result-cases, inl, inr, is_some, includes, Entries, is_empty, filter,
}
use jinbe.Redis.{Redis}
use jinbe.Kratos.{Kratos, Failure, get_user_groups, update_user_groups, without_group}
use jinbe.Recert.{
  RecertState, RecertCampaign, RecertItem, RecertReport, RecertItemContext, Decision, Status,
  OnExpiry, revoke, flag, kept, draft, active, closing, completed, archived, is_active, is_draft,
  is_deletable, is_pending, Error, get_campaign, get_items, get_report, set_campaign, set_item,
  set_report, remove_from_inbox, add_to_inbox, remove_if_member, with_directory,
  remove_group_membership, keep_items, finalize, must_keep, build_report,
}
use jinbe.Recert.Campaigns.{
  CreateCampaignInput, create_checked, create_campaign, delete_campaign, delete_keys, remove_refs,
}
use jinbe.Recert.Generation.{store_items, fill_inboxes, activate_campaign}
use jinbe.Recert.Decisions.{
  is_revoked, apply_decision, mark_applied, complete_if_done, record_decision, admit, decide,
  Admitted,
}
use jinbe.Recert.Closing.{
  settle_removed, expire_item, close_item, close_items, close_campaign, finish,
}

-- How a method may move the campaign that is stored under an id.
pub data Moves (now : ℕ) (id : String)
    : Option RecertCampaign → Option RecertCampaign → Type 0 where
  stays : (o : Option RecertCampaign) → Moves now id o o
  created : (c : RecertCampaign) → c.id ≡ id → c.status ≡ draft → Moves now id none (some c)
  activated :
      (c : RecertCampaign)
      → c.status ≡ draft
      → Moves now id (some c) (some (record c { status = active }))
  stranded :
      (c : RecertCampaign)
      → c.status ≡ active
      → Moves now id (some c) (some (record c { status = closing }))
  closed :
      (c : RecertCampaign)
      → c.status ≡ active
      → Moves now id (some c) (some (record c { status = completed; closed_at = some now }))
  deleted : (c : RecertCampaign) → is_deletable c.status ≡ true → Moves now id (some c) none

module _ (redis : Redis) (kratos : Kratos) where
  -- Each campaign is stored under its own id.
  unfoldable pub IsKeyed : RecertState redis kratos → Type 0
  IsKeyed s =
      (id : String) (c : RecertCampaign) → get_campaign redis kratos s id ≡ some c → c.id ≡ id

  unfoldable pub IsStep : ℕ → RecertState redis kratos → RecertState redis kratos → Type 0
  IsStep now s t =
      (id : String) → Moves now id (get_campaign redis kratos s id) (get_campaign redis kratos t id)

  pub same-IsStep :
      (now : ℕ) (s t : RecertState redis kratos) → t.campaigns ≡ s.campaigns → IsStep now s t
  unfolding IsStep
  same-IsStep now s t h id =
      subst (λ m. Moves now id (get_campaign redis kratos s id) (redis.hget RecertCampaign m id))
        (sym h) (stays (get_campaign redis kratos s id))

  -- one entry of the hash is replaced
  pub update-IsStep :
      (now : ℕ) (s t : RecertState redis kratos) (id : String) (o : Option RecertCampaign)
      → ((j : String)
          → get_campaign redis kratos t j ≡ (if id == j then o else get_campaign redis kratos s j))
      → Moves now id (get_campaign redis kratos s id) o
      → IsStep now s t
  unfolding IsStep
  update-IsStep now s t id o h m j =
      let here = h j in
      elim (Bool-cases (id == j)) [
        | inl e ↦
            let same = (eq_iff id j).0 e in
            subst (Moves now j (get_campaign redis kratos s j)) (sym (rw e at here))
              (subst (λ i. Moves now i (get_campaign redis kratos s i) o) same m)
        | inr e ↦
            subst (Moves now j (get_campaign redis kratos s j)) (sym (rw e at here))
              (stays (get_campaign redis kratos s j))
      ]

  keyed_move :
      (now : ℕ) (id : String) (o p : Option RecertCampaign)
      → Moves now id o p
      → ((c : RecertCampaign) → o ≡ some c → c.id ≡ id)
      → (c : RecertCampaign) → p ≡ some c
      → c.id ≡ id
  keyed_move now id _ _ (stays o) k c h = k c h
  keyed_move now id _ _ (created c' e d) k c h = cc
  keyed_move now id _ _ (activated c' d) k c h = cc (k c' refl)
  keyed_move now id _ _ (stranded c' d) k c h = cc (k c' refl)
  keyed_move now id _ _ (closed c' d) k c h = cc (k c' refl)
  keyed_move now id _ _ (deleted c' d) k c h = cc

  pub IsStep-IsKeyed :
      (now : ℕ) (s t : RecertState redis kratos) → IsStep now s t → IsKeyed s → IsKeyed t
  unfolding IsStep IsKeyed
  IsStep-IsKeyed now s t m k id = keyed_move now id _ _ (m id) (k id)

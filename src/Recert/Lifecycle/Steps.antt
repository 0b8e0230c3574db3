-- ===== src/Recert/Lifecycle/Steps.antt =====
-- Each method of `RecertService` that writes, as a step of the campaigns.
use jinbe.Prelude.{
  TextOps, ℕ, String, ◌≡◌, refl, sym, ap, subst, ◌∙◌, true, Option, none, some, List, Result, ok,
  err, arith, Option-cases, Bool-cases, Result-cases, inl, inr, Entries, is_empty, filter,
}
use jinbe.Redis.{Redis}
use jinbe.Kratos.{Kratos, Failure}
use jinbe.Recert.{
  RecertState, RecertCampaign, RecertItem, RecertItemContext, Decision, Status, draft, active,
  completed, is_draft, is_deletable, is_pending, Error, get_campaign, get_items, finalize,
}
use jinbe.Recert.Campaigns.{delete_campaign}
use jinbe.Recert.Generation.{generate_items, scope_groups, store_items, activate_campaign}
use jinbe.Recert.Decisions.{
  decided, apply_decision, complete_if_done, record_decision, admit, decide,
}
use jinbe.Recert.Lifecycle.{
  Moves, activated, closed, deleted, IsKeyed, IsStep, same-IsStep, update-IsStep,
}
use jinbe.Recert.Decisions.Guards.{admit-IsAllowed}
use jinbe.Recert.Frames.{
  store_items-campaigns, fill_inboxes-campaigns, remove_refs-campaigns, apply_decision-campaigns,
  finalize-campaigns,
}

is_draft-eq : (st : Status) → is_draft st ≡ true → st ≡ draft
is_draft-eq st h = ground arith

module _ (redis : Redis) (kratos : Kratos) (js : TextOps) (now : ℕ) where
  abbrev St : Type 0
  St = RecertState redis kratos

  -- the hash of campaigns after `setCampaign`
  pub set-IsStep :
      (s t : St) (id : String) (c c' : RecertCampaign)
      → get_campaign redis kratos s id ≡ some c
      → c'.id ≡ id
      → t.campaigns ≡ redis.hset RecertCampaign s.campaigns c'.id c'
      → Moves now id (some c) (some c')
      → IsStep redis kratos now s t
  set-IsStep s t id c c' found same h m =
      update-IsStep redis kratos now s t id (some c')
        (λ j.
          ap (λ m. redis.hget RecertCampaign m j)
            (subst (λ i. t.campaigns ≡ redis.hset RecertCampaign s.campaigns i c') same h)
          ∙ redis.hget-hset RecertCampaign s.campaigns id j c')
        (subst (λ o. Moves now id o (some c')) (sym found) m)

  pub activate_campaign-IsStep :
      (fresh : ℕ → String) (context : Entries RecertItemContext) (defined : List String)
      (directory : Result Failure (List (String × List String))) (id : String) (s : St)
      → IsKeyed redis kratos s
      → IsStep redis kratos now s
          (activate_campaign redis kratos js fresh context defined directory id s).1
  unfolding activate_campaign IsKeyed
  activate_campaign-IsStep fresh context defined directory id s k =
      elim (Option-cases (get_campaign redis kratos s id)) [
        | inl missing ↦ same-IsStep redis kratos now s _ (rw (missing, activate_campaign) refl)
        | inr (c, found) ↦ elim (Bool-cases (is_draft c.status)) [
          | inr other ↦ same-IsStep redis kratos now s _ (rw (found, other, activate_campaign) refl)
          | inl is_open ↦ elim (Result-cases directory) [
            | inl (e, h) ↦
                same-IsStep redis kratos now s _ (rw (found, is_open, h, activate_campaign) refl)
            | inr (users, h) ↦
                let c' = record c { status = active } in
                let items =
                  generate_items js fresh context (scope_groups defined c.scope_groups) c 0 users in
                set-IsStep s _ id c c' found (k id c found)
                  (rw (found, is_open, h, activate_campaign)
                    (ap (λ m. redis.hset RecertCampaign m c.id c')
                      (fill_inboxes-campaigns redis kratos js now items
                          (store_items redis kratos js items s)
                        ∙ store_items-campaigns redis kratos js now items s)))
                  (activated c (is_draft-eq c.status is_open))
          ]
        ]
      ]

  pub delete_campaign-IsStep :
      (id : String) (s : St)
      → IsStep redis kratos now s (delete_campaign redis kratos js now id s).1
  unfolding delete_campaign
  delete_campaign-IsStep id s = elim (Option-cases (get_campaign redis kratos s id)) [
    | inl missing ↦ same-IsStep redis kratos now s _ (rw (missing, delete_campaign) refl)
    | inr (c, found) ↦ elim (Bool-cases (is_deletable c.status)) [
      | inr other ↦ same-IsStep redis kratos now s _ (rw (found, other, delete_campaign) refl)
      | inl allowed ↦
          update-IsStep redis kratos now s _ id none
            (λ j.
              rw (found, allowed, delete_campaign)
                (ap (λ m. redis.hget RecertCampaign (redis.hdel RecertCampaign m id) j)
                    (remove_refs-campaigns redis kratos js now id (get_items redis kratos s id) s)
                  ∙ redis.hget-hdel RecertCampaign s.campaigns id j))
            (subst (λ o. Moves now id o none) (sym found) (deleted c allowed))
    ]
  ]

  finalize-IsStep :
      (id : String) (c : RecertCampaign) (s t : St)
      → get_campaign redis kratos s id ≡ some c
      → c.id ≡ id
      → c.status ≡ active
      → t.campaigns ≡ s.campaigns
      → IsStep redis kratos now s (finalize redis kratos now c t)
  finalize-IsStep id c s t found same is_open h =
      let c' = record c { status = completed; closed_at = some now } in
      set-IsStep s _ id c c' found same
        (finalize-campaigns redis kratos js now c t
          ∙ ap (λ m. redis.hset RecertCampaign m c.id c') h)
        (closed c is_open)

  complete_if_done-IsStep :
      (id : String) (c : RecertCampaign) (s t : St)
      → get_campaign redis kratos s id ≡ some c
      → c.id ≡ id
      → c.status ≡ active
      → t.campaigns ≡ s.campaigns
      → IsStep redis kratos now s (complete_if_done redis kratos js now id c t)
  unfolding complete_if_done
  complete_if_done-IsStep id c s t found same is_open h =
      elim (Bool-cases (
        is_empty
          (filter (λ (i : RecertItem). is_pending i.decision) (get_items redis kratos t id)))) [
            | inl e ↦
                subst (IsStep redis kratos now s) (rw (e, complete_if_done) refl)
                  (finalize-IsStep id c s t found same is_open h)
            | inr e ↦ same-IsStep redis kratos now s _ (rw (e, complete_if_done) h)
          ]

  record_decision-IsStep :
      (campaign_id item_id : String) (c : RecertCampaign) (s : St)
      (p : Result Error RecertItem × St)
      → get_campaign redis kratos s campaign_id ≡ some c
      → c.id ≡ campaign_id
      → c.status ≡ active
      → p.1.campaigns ≡ s.campaigns
      → IsStep redis kratos now s (record_decision redis kratos js now campaign_id item_id c p).1
  unfolding record_decision
  record_decision-IsStep campaign_id item_id c s (err e, t) found same is_open h =
      same-IsStep redis kratos now s t h
  record_decision-IsStep campaign_id item_id c s (ok done, t) found same is_open h =
      complete_if_done-IsStep campaign_id c s _ found same is_open h

  pub decide-IsStep :
      (campaign_id item_id : String) (d : Decision) (comment actor : Option String) (s : St)
      → IsKeyed redis kratos s
      → IsStep redis kratos now s
          (decide redis kratos js now campaign_id item_id d comment actor s).1
  unfolding decide IsKeyed
  decide-IsStep campaign_id item_id d comment actor s k =
      elim (Result-cases (admit redis kratos js now campaign_id item_id d comment actor s)) [
        | inl (e, h) ↦ same-IsStep redis kratos now s _ (rw (h, decide) refl)
        | inr (a, h) ↦
            let allowed =
              admit-IsAllowed redis kratos js now s s campaign_id item_id d comment actor a h in
            let i = decided redis kratos js now a.item d a.by comment in
            let kept = apply_decision-campaigns redis kratos js now i s in
            subst (IsStep redis kratos now s) (rw (h, decide) refl) (
              record_decision-IsStep campaign_id item_id a.campaign s
                (apply_decision redis kratos js now i s) allowed.found
                (k campaign_id a.campaign allowed.found) allowed.is_open kept)
      ]

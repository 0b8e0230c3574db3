-- ===== src/Recert/Lifecycle/Closing.antt =====
-- `closeCampaign` and `createCampaign` as steps of the campaigns.
use jinbe.Prelude.{
  TextOps, ℕ, String, ◌≡◌, refl, sym, ap, subst, ◌∙◌, ◌||◌, ◌==◌, if◌then◌else◌, Option, none, some,
  List, Result, ok, err, arith, Option-cases, Bool-cases, inl, inr, is_empty,
}
use jinbe.Redis.{Redis}
use jinbe.Kratos.{Kratos}
use jinbe.Recert.{
  RecertState, RecertCampaign, OnExpiry, active, closing, completed, is_active, Error, get_campaign,
  get_items, set_campaign, finalize,
}
use jinbe.Recert.Campaigns.{
  new_campaign, refuses, reviewers_of, CreateCampaignInput, create_checked, create_campaign,
}
use jinbe.Recert.Closing.{close_items, close_campaign, finish}
use jinbe.Recert.Lifecycle.{
  Moves, created, stranded, closed, IsKeyed, IsStep, same-IsStep, update-IsStep,
}
use jinbe.Recert.Decisions.Guards.{is_active-eq}
use jinbe.Recert.Frames.{close_items-campaigns, finalize-campaigns}
use jinbe.Recert.Lifecycle.Steps.{set-IsStep}

-- the campaign as it is stored while the memberships are worked through
abbrev pub closing_campaign : RecertCampaign → RecertCampaign
closing_campaign c = record c { status = closing }

module _ (redis : Redis) (kratos : Kratos) (js : TextOps) (now : ℕ) where
  abbrev St : Type 0
  St = RecertState redis kratos

  twice :
      (s t : St) (id : String) (c' done : RecertCampaign) (j : String)
      → t.campaigns
        ≡ redis.hset RecertCampaign (redis.hset RecertCampaign s.campaigns id c') id done
      → get_campaign redis kratos t j
        ≡ (if id == j then some done else get_campaign redis kratos s j)
  twice s t id c' done j h =
      ap (λ m. redis.hget RecertCampaign m j) h
      ∙ ground (
        arith,
        redis.hget-hset RecertCampaign (redis.hset RecertCampaign s.campaigns id c') id j done,
        redis.hget-hset RecertCampaign s.campaigns id j c',
      )

  -- the state after the loop, whatever it gave
  finish-IsStep :
      (id : String) (c : RecertCampaign) (s : St) (p : Result Error (Unit {0}) × St)
      → get_campaign redis kratos s id ≡ some c
      → c.id ≡ id
      → c.status ≡ active
      → p.1.campaigns ≡ redis.hset RecertCampaign s.campaigns c.id (closing_campaign c)
      → IsStep redis kratos now s (finish redis kratos js now (closing_campaign c) p).1
  unfolding finish
  finish-IsStep id c s (err e, t) found same is_open h =
      set-IsStep redis kratos js now s t id c (closing_campaign c) found same h (stranded c is_open)
  finish-IsStep id c s (ok u, t) found same is_open h =
      let done = record c { status = completed; closed_at = some now } in
      update-IsStep redis kratos now s _ id (some done)
        (λ j.
          twice s (finalize redis kratos now (closing_campaign c) t) id (closing_campaign c) done j
            (subst
              (λ i.
                (finalize redis kratos now (closing_campaign c) t).campaigns
                ≡ redis.hset RecertCampaign
                    (redis.hset RecertCampaign s.campaigns i (closing_campaign c)) i done)
              same
              (finalize-campaigns redis kratos js now (closing_campaign c) t
                ∙ ap (λ m. redis.hset RecertCampaign m c.id done) h)))
        (subst (λ o. Moves now id o (some done)) (sym found) (closed c is_open))

  pub close_campaign-IsStep :
      (id : String) (s : St)
      → IsKeyed redis kratos s
      → IsStep redis kratos now s (close_campaign redis kratos js now id s).1
  unfolding close_campaign IsKeyed
  close_campaign-IsStep id s k = elim (Option-cases (get_campaign redis kratos s id)) [
    | inl missing ↦ same-IsStep redis kratos now s _ (rw (missing, close_campaign) refl)
    | inr (c, found) ↦ elim (Bool-cases (is_active c.status)) [
      | inr other ↦ same-IsStep redis kratos now s _ (rw (found, other, close_campaign) refl)
      | inl is_open ↦
          let s' = set_campaign redis kratos (closing_campaign c) s in
          subst (IsStep redis kratos now s) (rw (found, is_open, close_campaign) refl) (
            finish-IsStep id c s
              (close_items redis kratos js now id c.on_expiry (get_items redis kratos s' id) s')
              found (k id c found) (is_active-eq c.status is_open)
              (close_items-campaigns redis kratos js now id c.on_expiry _ s'))
    ]
  ]

  -- the guards left a draft, stored under the new id
  create_checked-IsStep :
      (known : List String) (id : String) (created_by : Option String) (name : String)
      (input : CreateCampaignInput) (deadline : Option ℕ) (on_expiry : Option OnExpiry) (s : St)
      → get_campaign redis kratos s id ≡ none
      → IsStep redis kratos now s
          (create_checked redis kratos js now known id created_by name input deadline on_expiry s).1
  unfolding create_checked new_campaign
  create_checked-IsStep known id by name input none o s unused =
      same-IsStep redis kratos now s s refl
  create_checked-IsStep known id by name input (some d) none s unused =
      same-IsStep redis kratos now s s refl
  create_checked-IsStep known id by name input (some d) (some o) s unused =
      let c = new_campaign redis kratos js now id by name input d o in
      elim (Bool-cases (refuses js now known input d)) [
        | inl e ↦ same-IsStep redis kratos now s _ (rw (e, create_checked) refl)
        | inr e ↦
            update-IsStep redis kratos now s _ id (some c)
              (λ j. rw (e, create_checked) (redis.hget-hset RecertCampaign s.campaigns id j c))
              (subst (λ o. Moves now id o (some c)) (sym unused) (created c refl refl))
      ]

  pub create_campaign-IsStep :
      (known : List String) (id : String) (created_by : Option String) (input : CreateCampaignInput)
      (s : St)
      → get_campaign redis kratos s id ≡ none
      → IsStep redis kratos now s
          (create_campaign redis kratos js now known id created_by input s).1
  unfolding create_campaign
  create_campaign-IsStep known id created_by input s unused =
      elim (Bool-cases (js.trim input.name == "" || is_empty (reviewers_of js input.reviewers))) [
        | inl e ↦ same-IsStep redis kratos now s _ (rw (e, create_campaign) refl)
        | inr e ↦ subst (IsStep redis kratos now s) (rw (e, create_campaign) refl) (
            create_checked-IsStep known id created_by (js.trim input.name) input input.deadline
              input.on_expiry s unused)
      ]

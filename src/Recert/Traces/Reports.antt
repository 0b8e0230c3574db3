-- ===== src/Recert/Traces/Reports.antt =====
-- The report of a campaign is frozen: no request writes it a second time or removes it.
use jinbe.Prelude.{
  TextOps, ℕ, String, ◌≡◌, ap, ◌∙◌, ◌||◌, ◌==◌, Option, none, some, List, [], ◌∷◌, Result, ok, err,
  Bool-cases, Option-cases, Result-cases, inl, inr, is_empty, filter, Entries,
}
use jinbe.Redis.{Redis}
use jinbe.Kratos.{Kratos, Failure}
use jinbe.Recert.{
  RecertState, RecertCampaign, RecertItem, RecertReport, RecertItemContext, Decision, OnExpiry,
  Error, is_draft, is_active, is_deletable, is_pending, get_campaign, get_items, get_report,
  set_campaign,
}
use jinbe.Recert.Campaigns.{
  CreateCampaignInput, create_checked, create_campaign, delete_campaign, reviewers_of, refuses,
}
use jinbe.Recert.Generation.{generate_items, scope_groups, store_items, activate_campaign}
use jinbe.Recert.Decisions.{
  admit, apply_decision, complete_if_done, decide, decided, record_decision,
}
use jinbe.Recert.Closing.{close_items, close_campaign, finish}
use jinbe.Recert.Lifecycle.Closing.{closing_campaign}
use jinbe.Recert.Frames.{
  store_items-reports, fill_inboxes-reports, remove_refs-reports, close_items-reports,
  apply_decision-reports, finalize-get_report,
}
use jinbe.Recert.Traces.{Request, create, activate, vote, close, delete, perform, run}

module _ (redis : Redis) (kratos : Kratos) (js : TextOps) (id : String) (old : RecertReport) where
  abbrev St : Type 0
  St = RecertState redis kratos

  abbrev Has : St → Type 0
  Has s = get_report redis kratos s id ≡ some old

  same-Has : (s t : St) → t.reports ≡ s.reports → Has s → Has t
  same-Has s t e h = ap (λ m. redis.hget RecertReport m id) e ∙ h

  create_checked-Has :
      (now : ℕ) (known : List String) (c_id : String) (by : Option String) (name : String)
      (input : CreateCampaignInput) (d : Option ℕ) (o : Option OnExpiry) (s : St)
      → Has s
      → Has (create_checked redis kratos js now known c_id by name input d o s).1
  unfolding create_checked
  create_checked-Has now known c_id by name input none o s h = h
  create_checked-Has now known c_id by name input (some d) none s h = h
  create_checked-Has now known c_id by name input (some d) (some o) s h =
      elim (Bool-cases (refuses js now known input d)) [
        | inl e ↦ rw (e, create_checked) h
        | inr e ↦ rw (e, create_checked) h
      ]

  create_campaign-Has :
      (now : ℕ) (known : List String) (c_id : String) (by : Option String)
      (input : CreateCampaignInput) (s : St)
      → Has s
      → Has (create_campaign redis kratos js now known c_id by input s).1
  unfolding create_campaign
  create_campaign-Has now known c_id by input s h =
      elim (Bool-cases (js.trim input.name == "" || is_empty (reviewers_of js input.reviewers))) [
        | inl e ↦ rw (e, create_campaign) h
        | inr e ↦
            rw (e, create_campaign)
              (create_checked-Has now known c_id by (js.trim input.name) input input.deadline
                input.on_expiry s h)
      ]

  activate_campaign-Has :
      (now : ℕ) (fresh : ℕ → String) (context : Entries RecertItemContext) (defined : List String)
      (directory : Result Failure (List (String × List String))) (c_id : String) (s : St)
      → Has s
      → Has (activate_campaign redis kratos js fresh context defined directory c_id s).1
  unfolding activate_campaign
  activate_campaign-Has now fresh context defined directory c_id s h =
      elim (Option-cases (get_campaign redis kratos s c_id)) [
        | inl missing ↦ rw (missing, activate_campaign) h
        | inr (c, found) ↦ elim (Bool-cases (is_draft c.status)) [
          | inr other ↦ rw (found, other, activate_campaign) h
          | inl is_open ↦ elim (Result-cases directory) [
            | inl (e, k) ↦ rw (found, is_open, k, activate_campaign) h
            | inr (users, k) ↦
                let items =
                  generate_items js fresh context (scope_groups defined c.scope_groups) c 0 users in
                rw (found, is_open, k, activate_campaign)
                  (ap (λ m. redis.hget RecertReport m id)
                      (fill_inboxes-reports redis kratos js now items
                          (store_items redis kratos js items s)
                        ∙ store_items-reports redis kratos js now items s)
                    ∙ h)
          ]
        ]
      ]

  delete_campaign-Has :
      (now : ℕ) (c_id : String) (s : St)
      → Has s
      → Has (delete_campaign redis kratos js now c_id s).1
  unfolding delete_campaign
  delete_campaign-Has now c_id s h = elim (Option-cases (get_campaign redis kratos s c_id)) [
    | inl missing ↦ rw (missing, delete_campaign) h
    | inr (c, found) ↦ elim (Bool-cases (is_deletable c.status)) [
      | inr other ↦ rw (found, other, delete_campaign) h
      | inl allowed ↦
          rw (found, allowed, delete_campaign)
            (ap (λ m. redis.hget RecertReport m id)
                (remove_refs-reports redis kratos js now c_id (get_items redis kratos s c_id) s)
              ∙ h)
    ]
  ]

  complete_if_done-Has :
      (now : ℕ) (c_id : String) (c : RecertCampaign) (s : St)
      → Has s
      → Has (complete_if_done redis kratos js now c_id c s)
  unfolding complete_if_done
  complete_if_done-Has now c_id c s h =
      elim (Bool-cases (
        is_empty
          (filter (λ (i : RecertItem). is_pending i.decision) (get_items redis kratos s c_id)))) [
            | inl e ↦
                rw (e, complete_if_done) (finalize-get_report redis kratos js now c s id old h)
            | inr e ↦ rw (e, complete_if_done) h
          ]

  record_decision-Has :
      (now : ℕ) (c_id item_id : String) (c : RecertCampaign) (p : Result Error RecertItem × St)
      → Has p.1
      → Has (record_decision redis kratos js now c_id item_id c p).1
  unfolding record_decision
  record_decision-Has now c_id item_id c (err e, s) h = h
  record_decision-Has now c_id item_id c (ok done, s) h = complete_if_done-Has now c_id c _ h

  decide-Has :
      (now : ℕ) (c_id item_id : String) (d : Decision) (comment actor : Option String) (s : St)
      → Has s
      → Has (decide redis kratos js now c_id item_id d comment actor s).1
  unfolding decide
  decide-Has now c_id item_id d comment actor s h =
      elim (Result-cases (admit redis kratos js now c_id item_id d comment actor s)) [
        | inl (e, k) ↦ rw (k, decide) h
        | inr (a, k) ↦
            let i = decided redis kratos js now a.item d a.by comment in
            let p = apply_decision redis kratos js now i s in
            rw (k, decide)
              (record_decision-Has now c_id item_id a.campaign p
                (same-Has s p.1 (apply_decision-reports redis kratos js now i s) h))
      ]

  finish-Has :
      (now : ℕ) (c : RecertCampaign) (p : Result Error (Unit {0}) × St)
      → Has p.1
      → Has (finish redis kratos js now c p).1
  unfolding finish
  finish-Has now c (err e, s) h = h
  finish-Has now c (ok u, s) h = finalize-get_report redis kratos js now c s id old h

  close_campaign-Has :
      (now : ℕ) (c_id : String) (s : St) → Has s → Has (close_campaign redis kratos js now c_id s).1
  unfolding close_campaign
  close_campaign-Has now c_id s h = elim (Option-cases (get_campaign redis kratos s c_id)) [
    | inl missing ↦ rw (missing, close_campaign) h
    | inr (c, found) ↦ elim (Bool-cases (is_active c.status)) [
      | inr other ↦ rw (found, other, close_campaign) h
      | inl is_open ↦
          let s' = set_campaign redis kratos (closing_campaign c) s in
          let items = get_items redis kratos s' c_id in
          let p = close_items redis kratos js now c_id c.on_expiry items s' in
          rw (found, is_open, close_campaign)
            (finish-Has now (closing_campaign c) p (
              same-Has s' p.1 (close_items-reports redis kratos js now c_id c.on_expiry items s')
                h))
    ]
  ]

  perform-Has : (now : ℕ) (r : Request) (s : St) → Has s → Has (perform redis kratos js now r s)
  unfolding perform
  perform-Has now (create known c_id by input) s h = create_campaign-Has now known c_id by input s h
  perform-Has now (activate fresh context defined directory c_id) s h =
      activate_campaign-Has now fresh context defined directory c_id s h
  perform-Has now (vote c_id item_id d comment actor) s h =
      decide-Has now c_id item_id d comment actor s h
  perform-Has now (close c_id) s h = close_campaign-Has now c_id s h
  perform-Has now (delete c_id) s h = delete_campaign-Has now c_id s h

  -- The report that is stored for a campaign is the same after every run of requests.
  pub run-get_report :
      (rs : List (ℕ × Request)) (s : St)
      → get_report redis kratos s id ≡ some old
      → get_report redis kratos (run redis kratos js rs s) id ≡ some old
  unfolding run
  run-get_report [] s h = h
  run-get_report ((now, r) ∷ rs) s h =
      run-get_report rs (perform redis kratos js now r s) (perform-Has now r s h)

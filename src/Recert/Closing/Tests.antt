-- ===== src/Recert/Closing/Tests.antt =====
-- The properties of closing and of runs at a campaign with two items.
use jinbe.Prelude.{true, ℕ, String, ◌≡◌, refl, none, some, List, [], ◌∷◌, Result, ok, err}
use jinbe.Kratos.{api_error, get_user_groups, update_user_groups, without_group}
use jinbe.Samples.{redis, kratos}
use jinbe.Recert.{
  RecertCampaign, revoke, flag, active, closing, completed, approved, Error, kratos_error,
  get_campaign, get_item, remove_group_membership,
}
use jinbe.Recert.Closing.{close_items, close_under_lock, close_campaign}
use jinbe.Recert.Closing.Outcomes.{map_item, outcome_at_close, close_campaign-outcomes}
use jinbe.Recert.Closing.Flagging.{close_campaign-flag}
use jinbe.Recert.Lifecycle.{IsStep}
use jinbe.Recert.Traces.{
  Request, activate, close, delete, vote, perform, run, IsFresh, perform-IsStep,
}
use jinbe.Recert.{RecertReport, build_report}
use jinbe.Recert.Traces.Stranded.{run-closing}
use jinbe.Recert.Samples.{
  js, campaign, St, state, two_items, gone, now, state-IsKeyed, two_items-AreFiled, directory,
  scope, fresh, before,
}

-- the end

abbrev closing_run : St → Result Error RecertCampaign × St
closing_run s = close_campaign redis kratos js now "c1" s

abbrev done_campaign : RecertCampaign
done_campaign = record (campaign revoke completed) { closed_at = some now }

closing-ok : closing_run before ≡ (ok done_campaign, (closing_run before).1)
unfolding close_campaign close_items remove_group_membership get_user_groups update_user_groups
    without_group
closing-ok = refl

close_campaign-outcomes_example :
    (get_campaign redis kratos (closing_run before).1 "c1" ≡ some done_campaign)
    × ((k : String)
        → get_item redis kratos (closing_run before).1 "c1" k
          ≡ map_item (outcome_at_close revoke) (get_item redis kratos before "c1" k))
close_campaign-outcomes_example =
    close_campaign-outcomes redis kratos js now "c1" before (closing_run before).1
      (campaign revoke active) done_campaign (two_items-AreFiled (campaign revoke active)) refl refl
      refl closing-ok

close_campaign-flag_example :
    (close_under_lock redis kratos js now true "c1" (state (campaign flag active) gone)).0
    ≡ ok (record (campaign flag completed) { closed_at = some now })
close_campaign-flag_example =
    close_campaign-flag redis kratos js now true "c1" (state (campaign flag active) gone)
      (campaign flag active) refl refl refl

abbrev lost : St
lost = state (campaign revoke active) gone

abbrev not_found : Error
not_found = kratos_error (api_error 404)

lost-err : closing_run lost ≡ (err not_found, (closing_run lost).1)
unfolding close_campaign close_items remove_group_membership get_user_groups
lost-err = refl

-- runs

abbrev requests : List (ℕ × Request)
requests =
    (now, close "c1")
    ∷ (now, activate fresh [] scope (ok directory) "c1")
    ∷ (now, vote "c1" "i1" approved none (some "boss@x"))
    ∷ (now, delete "c1")
    ∷ []

abbrev stuck : St
stuck = state (campaign revoke closing) gone

requests-IsFresh : (s : St) → IsFresh redis kratos js requests s
unfolding IsFresh
requests-IsFresh s = ((λ id h. cc), ((λ id h. cc), ((λ id h. cc), ((λ id h. cc), tt))))

perform-IsStep_example :
    IsStep redis kratos now before (perform redis kratos js now (close "c1") before)
perform-IsStep_example =
    perform-IsStep redis kratos js now (close "c1") before
      (state-IsKeyed (campaign revoke active) two_items) (λ id h. cc)

run-closing_example :
    get_campaign redis kratos (run redis kratos js requests stuck) "c1"
    ≡ some (campaign revoke closing)
run-closing_example =
    run-closing redis kratos js requests stuck "c1" (campaign revoke closing)
      (state-IsKeyed (campaign revoke closing) gone) (requests-IsFresh stuck) refl refl

-- Closing once more, later, leaves the report of the first time.
abbrev report : RecertReport
report = build_report now done_campaign []

abbrev reported : St
reported = record before { reports = ("c1", report) ∷ [] }

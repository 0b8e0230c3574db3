-- ===== src/Recert/Sweeper/Tests.antt =====
-- A sweep over a campaign whose deadline is over.
use jinbe.Prelude.{◌≡◌, refl, some, true, false, ◌&&◌, leb}
use jinbe.Kratos.{get_user_groups, update_user_groups, without_group}
use jinbe.Samples.{redis, kratos}
use jinbe.Recert.{
  RecertCampaign, revoke, active, completed, get_campaign, finalize, keep_items,
  remove_group_membership, is_active,
}
use jinbe.Recert.Closing.{close_campaign, close_under_lock, close_items}
use jinbe.Recert.Samples.{js, campaign, before, two_items, state-IsKeyed}
use jinbe.Recert.Sweeper.{run_recert_sweep}
use jinbe.Recert.Sweeper.Overdue.{run_recert_sweep-is_due}

-- where another call holds the lock, the campaign stays
refused :
    get_campaign redis kratos
      (run_recert_sweep redis kratos js 3_000 true (λ id. false) before)
      "c1"
    ≡ some (campaign revoke active)
unfolding run_recert_sweep close_under_lock
refused = refl

abbrev swept_campaign : RecertCampaign
swept_campaign = record (campaign revoke completed) { closed_at = some 3_000 }

swept :
    get_campaign redis kratos (run_recert_sweep redis kratos js 3_000 true (λ id. true) before) "c1"
    ≡ some swept_campaign
unfolding run_recert_sweep close_under_lock close_campaign close_items finalize keep_items
    remove_group_membership get_user_groups update_user_groups without_group
swept = refl

run_recert_sweep-is_due_example : is_active swept_campaign.status && leb 2_000 3_000 ≡ false
run_recert_sweep-is_due_example =
    run_recert_sweep-is_due redis kratos js 3_000 (λ id. true) before "c1" swept_campaign
      (state-IsKeyed (campaign revoke active) two_items) refl swept

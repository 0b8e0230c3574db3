-- ===== src/Recert/Sweeper.antt =====
-- src/services/recert-scheduler.service.ts: the hourly sweep that closes what is overdue. An error
-- of one campaign, also of its lock, is logged, and the sweep goes on.
pub mod Overdue
mod Tests
use jinbe.Prelude.{
  TextOps, ℕ, String, ◌≡◌, refl, sym, ap, subst, ◌∙◌, ◌⊎◌, inl, inr, Bool, true, false, ◌&&◌, ◌==◌,
  eq_iff, if◌then◌else◌, leb, Option, none, some, List, [], ◌∷◌, Result, ok, err, arith, Bool-cases,
  Option-cases, Result-cases, Entries, lookup,
}
use jinbe.Redis.{Redis}
use jinbe.Kratos.{Kratos}
use jinbe.Recert.{
  RecertState, RecertCampaign, Error, completed, is_active, values, get_campaign, get_items,
  set_campaign, finalize,
}
use jinbe.Recert.Closing.{close_items, close_campaign, close_under_lock, finish}
use jinbe.Recert.Frames.{close_items-campaigns, finalize-campaigns}
use jinbe.Recert.Lifecycle.{IsKeyed, IsStep-IsKeyed}
use jinbe.Recert.Lifecycle.Closing.{closing_campaign, close_campaign-IsStep}

module _ (redis : Redis) (kratos : Kratos) (js : TextOps) (now : ℕ) where
  abbrev St : Type 0
  St = RecertState redis kratos

  -- active, and `Date.parse(campaign.deadline) <= now`
  abbrev pub is_due : RecertCampaign → Bool
  is_due c = is_active c.status && leb c.deadline now

  -- `granted` tells of which campaigns the lock is granted when the sweep comes to them
  unfoldable pub close_due : (String → Bool) → List RecertCampaign → St → St
  close_due granted [] s = s
  close_due granted (c ∷ cs) s =
      let t = (close_under_lock redis kratos js now (granted c.id) c.id s).1 in
      close_due granted cs (if is_due c then t else s)

  -- `runRecertSweep`: another replica may have claimed the run
  unfoldable pub run_recert_sweep : Bool → (String → Bool) → St → St
  unfolding close_due
  run_recert_sweep claimed granted s =
      if claimed then close_due granted (values (redis.hgetall RecertCampaign s.campaigns)) s else s

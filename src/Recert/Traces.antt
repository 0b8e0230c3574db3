-- ===== src/Recert/Traces.antt =====
-- Requests to `RecertService` one after another: `perform` is one of them, whose lock is granted, and a
-- run is a list.
pub mod Stranded
pub mod Reports
use jinbe.Prelude.{
  TextOps, ℕ, String, ◌≡◌, ◌≢◌, refl, sym, ap, subst, ◌∙◌, Bool, true, false, not, ◌||◌, ◌==◌,
  eq_iff, eq_refl, if◌then◌else◌, Option, none, some, List, [], ◌∷◌, Result, ok, err, arith,
  Option-cases, Bool-cases, Result-cases, inl, inr, is_some, includes, Entries, is_empty, filter,
}
use jinbe.Redis.{Redis}
use jinbe.Kratos.{Kratos, Failure, get_user_groups, update_user_groups, without_group}
use jinbe.Recert.{
  RecertState, RecertCampaign, RecertItem, RecertReport, RecertItemContext, Decision, Status,
  OnExpiry, revoke, flag, kept, draft, active, closing, completed, archived, is_active, is_draft,
  is_deletable, is_pending, Error, get_campaign, get_items, get_report, set_campaign, set_item,
  set_report, remove_from_inbox, add_to_inbox, remove_if_member, with_directory,
  remove_group_membership, keep_items, finalize, must_keep, build_report,
}
use jinbe.Recert.Campaigns.{
  new_campaign, refuses, reviewers_of, CreateCampaignInput, create_checked, create_campaign,
  delete_campaign, delete_keys, remove_refs,
}
use jinbe.Recert.Generation.{
  generate_items, scope_groups, store_items, fill_inboxes, activate_campaign,
}
use jinbe.Recert.Decisions.{
  decided, is_revoked, apply_decision, mark_applied, complete_if_done, record_decision, admit,
  decide, Admitted,
}
use jinbe.Recert.Closing.{
  settle_removed, expire_item, close_item, close_items, close_campaign, finish,
}
use jinbe.Recert.Lifecycle.{
  Moves, stays, created, activated, stranded, closed, deleted, IsKeyed, IsStep, same-IsStep,
  update-IsStep, IsStep-IsKeyed,
}
use jinbe.Recert.Decisions.Guards.{admit-IsAllowed, is_active-eq}
use jinbe.Recert.Frames.{
  store_items-campaigns, fill_inboxes-campaigns, remove_refs-campaigns, close_items-campaigns,
  apply_decision-campaigns, finalize-campaigns,
}
use jinbe.Recert.Lifecycle.Steps.{activate_campaign-IsStep, delete_campaign-IsStep, decide-IsStep}
use jinbe.Recert.Lifecycle.Closing.{create_campaign-IsStep, close_campaign-IsStep}

-- The requests, each with what the service reads of its surroundings: the names of the defined
-- groups, the random UUIDs, and the users of Kratos.
pub data Request : Type 0 where
  create : List String → String → Option String → CreateCampaignInput → Request
  activate :
      (ℕ → String)
      → Entries RecertItemContext
      → List String
      → Result Failure (List (String × List String))
      → String
      → Request
  vote : String → String → Decision → Option String → Option String → Request
  close : String → Request
  delete : String → Request

-- the id that a request creates
abbrev pub created_id : Request → Option String
created_id (create known id created_by input) = some id
created_id _ = none

module _ (redis : Redis) (kratos : Kratos) (js : TextOps) where
  abbrev St : Type 0
  St = RecertState redis kratos

  unfoldable pub perform : ℕ → Request → St → St
  perform now (create known id created_by input) s =
      (create_campaign redis kratos js now known id created_by input s).1
  perform now (activate fresh context defined directory id) s =
      (activate_campaign redis kratos js fresh context defined directory id s).1
  perform now (vote campaign_id item_id d comment actor) s =
      (decide redis kratos js now campaign_id item_id d comment actor s).1
  perform now (close id) s = (close_campaign redis kratos js now id s).1
  perform now (delete id) s = (delete_campaign redis kratos js now id s).1

  -- Every request moves every campaign along the life of a campaign: it creates a draft, makes an
  -- active campaign of a draft, closes an active one or leaves it closing, deletes a draft or an
  -- archived one, and leaves all others as they were. The state before stores each campaign
  -- under its own id, and a request that creates uses an id that is free.
  pub perform-IsStep :
      (now : ℕ) (r : Request) (s : St)
      → IsKeyed redis kratos s
      → ((id : String) → created_id r ≡ some id → get_campaign redis kratos s id ≡ none)
      → IsStep redis kratos now s (perform now r s)
  unfolding perform
  perform-IsStep now (create known id created_by input) s k f =
      create_campaign-IsStep redis kratos js now known id created_by input s (f id refl)
  perform-IsStep now (activate fresh context defined directory id) s k f =
      activate_campaign-IsStep redis kratos js now fresh context defined directory id s k
  perform-IsStep now (vote campaign_id item_id d comment actor) s k f =
      decide-IsStep redis kratos js now campaign_id item_id d comment actor s k
  perform-IsStep now (close id) s k f = close_campaign-IsStep redis kratos js now id s k
  perform-IsStep now (delete id) s k f = delete_campaign-IsStep redis kratos js now id s

  -- the requests of a run, each with its time
  unfoldable pub run : List (ℕ × Request) → St → St
  run [] s = s
  run ((now, r) ∷ rs) s = run rs (perform now r s)

  -- each id that is created is free at its time
  unfoldable pub IsFresh : List (ℕ × Request) → St → Type 0
  IsFresh [] s = Unit
  IsFresh ((now, r) ∷ rs) s =
      ((id : String) → created_id r ≡ some id → get_campaign redis kratos s id ≡ none)
      × IsFresh rs (perform now r s)

  -- Each campaign stays stored under its own id in every run.
  pub run-IsKeyed :
      (rs : List (ℕ × Request)) (s : St)
      → IsKeyed redis kratos s
      → IsFresh rs s
      → IsKeyed redis kratos (run rs s)
  unfolding run IsFresh
  run-IsKeyed [] s k f = k
  run-IsKeyed ((now, r) ∷ rs) s k (free, f) =
      run-IsKeyed rs (perform now r s)
        (IsStep-IsKeyed redis kratos now s _ (perform-IsStep now r s k free) k) f

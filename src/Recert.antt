-- ===== src/Recert.antt =====
-- src/services/recert.service.ts over src/services/redis-recert.repository.ts: campaigns that
-- review group memberships. A method is an action that may throw. Its body runs under the lock
-- recert:<campaignId>; audit events are not part of this model.
pub mod Campaigns
pub mod Generation
pub mod Decisions
pub mod Closing
mod Types
unfoldable pub use Types.*
pub mod Membership
pub mod Sweep
pub mod Frames
pub mod Lifecycle
pub mod Traces
pub mod Sweeper
mod Samples
mod Tests
use jinbe.Prelude.{
  TextOps, ℕ, suc, lookup, insert, or_else, String, Bool, true, false, not, ◌&&◌, ◌==◌,
  if◌then◌else◌, Option, none, some, List, [], ◌∷◌, Result, ok, err, Exec, includes, filter,
  is_empty, length, Entries, is_some,
}
use Prim.Native.String.{◌++◌ as ◌<>◌}
use jinbe.Redis.{Redis}
use jinbe.Kratos.{Kratos, Failure, get_user_groups, update_user_groups, without_group}

-- the member of an inbox set
abbrev pub inbox_ref : String → String → String
inbox_ref campaign item = campaign <> (":" <> item)

abbrev pub values : {V : Type 0} → Entries V → List V
values [] = []
values ((k, v) ∷ m) = v ∷ values m

-- `item.decision === 'approved' && !item.outcome`
abbrev pub must_keep : RecertItem → Bool
must_keep i = is_approved i.decision && not (is_some i.outcome)

module _ (redis : Redis) (kratos : Kratos) where
  -- the keys rbac:recert:…, and the users of Kratos
  pub record RecertState : Type 0 where
    pub campaigns : redis.Hash RecertCampaign
    pub items : String → redis.Hash RecertItem
    pub inbox : String → redis.Members
    pub reports : redis.Hash RecertReport
    pub directory : kratos.World

  abbrev pub Action : Type 0 → Type 0
  Action A = Exec Error RecertState A

  abbrev pub get_campaign : RecertState → String → Option RecertCampaign
  get_campaign s id = redis.hget RecertCampaign s.campaigns id

  abbrev pub get_item : RecertState → String → String → Option RecertItem
  get_item s campaign item = redis.hget RecertItem (s.items campaign) item

  abbrev pub get_items : RecertState → String → List RecertItem
  get_items s campaign = values (redis.hgetall RecertItem (s.items campaign))

  abbrev pub get_report : RecertState → String → Option RecertReport
  get_report s campaign = redis.hget RecertReport s.reports campaign

  abbrev pub set_campaign : RecertCampaign → RecertState → RecertState
  set_campaign c s = record s { campaigns = redis.hset RecertCampaign s.campaigns c.id c }

  abbrev pub put_items : String → redis.Hash RecertItem → RecertState → RecertState
  put_items campaign h s = record s { items = λ c. if campaign == c then h else s.items c }

  abbrev pub set_item : RecertItem → RecertState → RecertState
  set_item i s = put_items i.campaign_id (redis.hset RecertItem (s.items i.campaign_id) i.id i) s

  -- HSETNX
  abbrev pub set_report : RecertReport → RecertState → RecertState
  set_report r s =
      if is_some (get_report s r.campaign_id)
      then s
      else record s { reports = redis.hset RecertReport s.reports r.campaign_id r }

  module _ (js : TextOps) where
    abbrev put_inbox : String → redis.Members → RecertState → RecertState
    put_inbox key m s = record s { inbox = λ k. if key == k then m else s.inbox k }

    abbrev pub add_to_inbox : RecertItem → RecertState → RecertState
    add_to_inbox i s =
        let key = js.to_lower_case i.reviewer in
        put_inbox key (redis.sadd (s.inbox key) (inbox_ref i.campaign_id i.id)) s

    abbrev pub remove_from_inbox : String → String → String → RecertState → RecertState
    remove_from_inbox reviewer campaign item s =
        let key = js.to_lower_case reviewer in
        put_inbox key (redis.srem (s.inbox key) (inbox_ref campaign item)) s

  -- the result of a request to Kratos, and the users after it
  abbrev pub with_directory : {A : Type 0} → Result Failure A × kratos.World → Action (Unit {0})
  with_directory (ok a, w) s = (ok tt, record s { directory = w })
  with_directory (err e, w) s = (err (kratos_error e), record s { directory = w })

  unfoldable pub remove_if_member : String → String → List String → Action (Unit {0})
  remove_if_member subject group current s =
      if includes current group
      then with_directory
          (update_user_groups kratos s.directory subject (without_group group current)) s
      else (ok tt, s)

  unfoldable pub remove_group_membership : String → String → Action (Unit {0})
  unfolding remove_if_member
  remove_group_membership subject group s = elim (get_user_groups kratos s.directory subject) [
    | err e ↦ (err (kratos_error e), s)
    | ok current ↦ remove_if_member subject group current s
  ]

  -- the loop of `finalize`
  unfoldable pub keep_items : List RecertItem → RecertState → RecertState
  keep_items [] s = s
  keep_items (i ∷ is) s =
      keep_items is (if must_keep i then set_item (record i { outcome = some kept }) s else s)

  unfoldable pub finalize : ℕ → RecertCampaign → RecertState → RecertState
  finalize now c s =
      let t = keep_items (get_items s c.id) s in
      let done = record c { status = completed; closed_at = some now } in
      let u = set_campaign done t in set_report (build_report now done (get_items u c.id)) u

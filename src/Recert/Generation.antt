-- ===== src/Recert/Generation.antt =====
-- `activateCampaign` and `generateItems`: one item for each user and group in scope, with the
-- reviewers in turn.
pub mod Laws
use jinbe.Prelude.{
  TextOps, ℕ, zero, suc, ◌+◌, ◌%◌, String, Bool, true, false, not, ◌==◌, if◌then◌else◌, Option,
  none, some, List, [], ◌∷◌, ◌++◌, Result, ok, err, filter, find?, includes, is_empty, length,
  Entries, lookup, or_else,
}
use jinbe.Redis.{Redis}
use jinbe.Kratos.{Kratos, Failure}
use jinbe.Recert.{
  RecertState, RecertCampaign, RecertItem, RecertItemContext, Action, draft, active, pending, Error,
  recert_error, kratos_error, is_draft, norm, default_group, get_campaign, set_campaign, set_item,
  add_to_inbox, put_items,
}

module _ {A : Type 0} where
  abbrev pub get_elem? : List A → ℕ → Option A
  get_elem? [] n = none
  get_elem? (x ∷ xs) zero = some x
  get_elem? (x ∷ xs) (suc n) = get_elem? xs n

-- the groups in scope; the default group never is
unfoldable pub scope_groups : List String → Option (List String) → List String
scope_groups defined none = filter (λ g. not (g == default_group)) defined
scope_groups defined (some groups) =
    if is_empty groups
    then filter (λ g. not (g == default_group)) defined
    else filter (λ g. not (g == default_group)) groups

-- the reviewer, and the flags of the self-review guard; a campaign has a reviewer
unfoldable pub assign : List String → ℕ → String → String × List String
assign reviewers rr subject =
    let reviewer = or_else (get_elem? reviewers (rr % length reviewers)) "" in
    if reviewer == subject
    then elim (find? (λ r. not (r == subject)) reviewers) [
      | some fallback ↦ (fallback, [])
      | none ↦ (reviewer, "self-review" ∷ [])
    ]
    else (reviewer, [])

abbrev no_context : RecertItemContext
no_context = record { tier = none; flags = []; last_active = none }

module _ (js : TextOps) (fresh : ℕ → String) (context : Entries RecertItemContext)
    (scope : List String) (c : RecertCampaign) where
  -- `rr` items were made before; `fresh` are the random UUIDs
  new_item : ℕ → String → String → RecertItem
  unfolding assign
  new_item rr subject group =
      let (reviewer, flags) = assign c.reviewers rr subject in
      let ctx = or_else (lookup subject context) no_context in
      record {
        id = fresh rr;
        campaign_id = c.id;
        subject = subject;
        group = group;
        reviewer = reviewer;
        decision = pending;
        decided_by = none;
        decided_at = none;
        comment = none;
        outcome = none;
        context = record {
          tier = ctx.tier;
          flags = ctx.flags ++ flags;
          last_active = ctx.last_active;
        };
      }

  items_of_user : ℕ → String → List String → List RecertItem
  unfolding new_item
  items_of_user rr subject [] = []
  items_of_user rr subject (group ∷ groups) =
      let made = new_item rr subject group ∷ items_of_user (rr + 1) subject groups in
      let skipped = items_of_user rr subject groups in
      if includes scope group then made else skipped

  unfoldable pub generate_items : ℕ → List (String × List String) → List RecertItem
  unfolding items_of_user
  generate_items rr [] = []
  generate_items rr ((email, groups) ∷ directory) =
      let items = items_of_user rr (norm js email) groups in
      items ++ generate_items (rr + length items) directory

module _ (redis : Redis) (kratos : Kratos) (js : TextOps) where
  unfoldable pub store_items : List RecertItem → RecertState redis kratos → RecertState redis kratos
  store_items [] s = s
  store_items (i ∷ is) s = store_items is (set_item redis kratos i s)

  unfoldable pub fill_inboxes :
      List RecertItem → RecertState redis kratos → RecertState redis kratos
  fill_inboxes [] s = s
  fill_inboxes (i ∷ is) s = fill_inboxes is (add_to_inbox redis kratos js i s)

  -- `defined` are the names of the defined groups; `directory` is what the walk over Kratos gave
  unfoldable pub activate_campaign :
      (ℕ → String)
      → Entries RecertItemContext
      → List String
      → Result Failure (List (String × List String))
      → String
      → Action redis kratos (RecertCampaign × ℕ)
  unfolding store_items fill_inboxes
  activate_campaign fresh context defined directory id s = elim (get_campaign redis kratos s id) [
    | none ↦ (err (recert_error 404), s)
    | some c ↦
        if is_draft c.status
        then elim directory [
          | err e ↦ (err (kratos_error e), s)
          | ok users ↦
              let items =
                generate_items js fresh context (scope_groups defined c.scope_groups) c 0 users in
              let c' = record c { status = active } in
              (
                ok (c', length items),
                set_campaign redis kratos c' (fill_inboxes items (store_items items s)),
              )
        ]
        else (err (recert_error 409), s)
  ]

-- ===== src/Recert/Campaigns.antt =====
-- `createCampaign` and `deleteCampaign`.
use jinbe.Prelude.{
  TextOps, ℕ, String, Bool, not, ◌||◌, ◌==◌, if◌then◌else◌, leb, Option, none, some, List, [], ◌∷◌,
  ok, err, map, filter, includes, is_empty, all, or_else,
}
use jinbe.Redis.{Redis}
use jinbe.Kratos.{Kratos}
use jinbe.Recert.{
  RecertState, RecertCampaign, RecertItem, Action, OnExpiry, draft, recert_error, is_deletable,
  norm, default_group, get_campaign, get_items, set_campaign, put_items, remove_from_inbox,
}

-- The deadline is the time that `Date.parse` gives, and an expiry that is neither word is none.
pub record CreateCampaignInput : Type 0 where
  pub name : String
  pub scope : Option (List String)
  pub reviewers : List String
  pub deadline : Option ℕ
  pub on_expiry : Option OnExpiry

-- `[...new Set(xs)]`: the first of each
unfoldable pub unique : List String → List String → List String
unique seen [] = []
unique seen (x ∷ xs) =
    let rest = unique (x ∷ seen) xs in
    let skipped = unique seen xs in if includes seen x then skipped else x ∷ rest

abbrev non_empty : List String → List String
non_empty = filter (λ x. not (x == ""))

unfoldable pub reviewers_of : TextOps → List String → List String
unfolding unique
reviewers_of js xs = unique [] (non_empty (map (norm js) xs))

unfoldable pub scope_of : TextOps → Option (List String) → List String
scope_of js scope = non_empty (map js.trim (or_else scope []))

-- a deadline that is over, or a scope with the default group or a group that is not defined
abbrev pub refuses : TextOps → ℕ → List String → CreateCampaignInput → ℕ → Bool
refuses js now known input deadline =
    let groups = scope_of js input.scope in
    leb deadline now || includes groups default_group || not (all (includes known) groups)

module _ (redis : Redis) (kratos : Kratos) (js : TextOps) (now : ℕ) where
  unfoldable pub new_campaign :
      String → Option String → String → CreateCampaignInput → ℕ → OnExpiry → RecertCampaign
  new_campaign id created_by name input deadline on_expiry = record {
    id = id;
    name = name;
    scope_groups =
        (let groups = scope_of js input.scope in if is_empty groups then none else some groups);
    reviewers = reviewers_of js input.reviewers;
    deadline = deadline;
    on_expiry = on_expiry;
    status = draft;
    created_by = created_by;
    created_at = now;
    closed_at = none;
  }

  -- the guards after the name and the reviewers
  unfoldable pub create_checked :
      List String
      → String
      → Option String
      → String
      → CreateCampaignInput
      → Option ℕ
      → Option OnExpiry
      → Action redis kratos RecertCampaign
  unfolding new_campaign
  create_checked known id created_by name input none on_expiry s = (err (recert_error 400), s)
  create_checked known id created_by name input (some deadline) none s = (err (recert_error 400), s)
  create_checked known id created_by name input (some deadline) (some on_expiry) s =
      let campaign = new_campaign id created_by name input deadline on_expiry in
      if refuses js now known input deadline
      then (err (recert_error 400), s)
      else (ok campaign, set_campaign redis kratos campaign s)

  -- `known` are the names of the defined groups, `id` is the random UUID
  unfoldable pub create_campaign :
      List String
      → String
      → Option String
      → CreateCampaignInput
      → Action redis kratos RecertCampaign
  unfolding create_checked
  create_campaign known id created_by input s =
      let name = js.trim input.name in
      if name == "" || is_empty (reviewers_of js input.reviewers)
      then (err (recert_error 400), s)
      else create_checked known id created_by name input input.deadline input.on_expiry s

  unfoldable pub remove_refs :
      String → List RecertItem → RecertState redis kratos → RecertState redis kratos
  remove_refs id [] s = s
  remove_refs id (i ∷ is) s =
      remove_refs id is (remove_from_inbox redis kratos js i.reviewer id i.id s)

  abbrev pub delete_keys : String → RecertState redis kratos → RecertState redis kratos
  delete_keys id s =
      let t = put_items redis kratos id (redis.empty RecertItem) s in
      record t { campaigns = redis.hdel RecertCampaign t.campaigns id }

  unfoldable pub delete_campaign : String → Action redis kratos (Unit {0})
  unfolding remove_refs
  delete_campaign id s = elim (get_campaign redis kratos s id) [
    | none ↦ (err (recert_error 404), s)
    | some c ↦
        if is_deletable c.status
        then (ok tt, delete_keys id (remove_refs id (get_items redis kratos s id) s))
        else (err (recert_error 409), s)
  ]

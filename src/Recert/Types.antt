-- ===== src/Recert/Types.antt =====
-- The data of campaigns (src/services/redis-recert.repository.ts), the errors of the service, and
-- the report of a campaign.
use jinbe.Prelude.{
  TextOps, ℕ, suc, lookup, insert, or_else, String, Bool, true, false, if◌then◌else◌, Option, some,
  List, [], ◌∷◌, filter, length, Entries,
}
use jinbe.Kratos.{Failure}

pub data OnExpiry : Type 0 where
  revoke flag : OnExpiry

pub data Status : Type 0 where
  draft active closing completed archived : Status

pub data Decision : Type 0 where
  pending approved revoked : Decision

pub data ItemOutcome : Type 0 where
  kept auto_revoked flagged revoke_applied : ItemOutcome

pub record RecertCampaign : Type 0 where
  pub id : String
  pub name : String
  pub scope_groups : Option (List String)
  pub reviewers : List String
  pub deadline : ℕ
  pub on_expiry : OnExpiry
  pub status : Status
  pub created_by : Option String
  pub created_at : ℕ
  pub closed_at : Option ℕ

pub record RecertItemContext : Type 0 where
  pub tier : Option ℕ
  pub flags : List String
  pub last_active : Option String

pub record RecertItem : Type 0 where
  pub id : String
  pub campaign_id : String
  pub subject : String
  pub group : String
  pub reviewer : String
  pub decision : Decision
  pub decided_by : Option String
  pub decided_at : Option ℕ
  pub comment : Option String
  pub outcome : Option ItemOutcome
  pub context : RecertItemContext

pub record Completion : Type 0 where
  pub decided : ℕ
  pub total : ℕ

pub record RecertReport : Type 0 where
  pub campaign_id : String
  pub campaign_name : String
  pub generated_at : ℕ
  pub deadline : ℕ
  pub on_expiry : OnExpiry
  pub total : ℕ
  pub approved : ℕ
  pub revoked : ℕ
  pub auto_revoked : ℕ
  pub flagged : ℕ
  pub kept : ℕ
  pub completion_by_reviewer : Entries Completion
  pub items : List RecertItem

-- `RecertError` with its status, or an error that Kratos gave
pub data Error : Type 0 where
  recert_error : ℕ → Error
  kratos_error : Failure → Error

-- `trim` and `toLowerCase` of JavaScript strings
abbrev pub norm : TextOps → String → String
norm js email = js.to_lower_case (js.trim email)

abbrev pub default_group : String
default_group = "users"

abbrev pub is_pending : Decision → Bool
is_pending pending = true
is_pending _ = false

abbrev pub is_draft : Status → Bool
is_draft draft = true
is_draft _ = false

abbrev pub is_active : Status → Bool
is_active active = true
is_active _ = false

abbrev pub is_deletable : Status → Bool
is_deletable draft = true
is_deletable archived = true
is_deletable _ = false

abbrev pub is_approved : Decision → Bool
is_approved approved = true
is_approved _ = false

abbrev has_outcome : ItemOutcome → Option ItemOutcome → Bool
has_outcome kept (some kept) = true
has_outcome auto_revoked (some auto_revoked) = true
has_outcome flagged (some flagged) = true
has_outcome revoke_applied (some revoke_applied) = true
has_outcome _ _ = false

-- the row of a reviewer with one item more
abbrev count_item : Completion → RecertItem → Completion
count_item row i = record {
  decided = if is_pending i.decision then row.decided else suc row.decided;
  total = suc row.total;
}

-- the loop over `completionByReviewer`
unfoldable pub completion : Entries Completion → List RecertItem → Entries Completion
completion table [] = table
completion table (i ∷ is) =
    let row = or_else (lookup i.reviewer table) (record { decided = 0; total = 0 }) in
    completion (insert i.reviewer (count_item row i) table) is

-- `buildReport`; the constant names of the standards are left out
unfoldable pub build_report : ℕ → RecertCampaign → List RecertItem → RecertReport
build_report now c items = record {
  campaign_id = c.id;
  campaign_name = c.name;
  generated_at = now;
  deadline = c.deadline;
  on_expiry = c.on_expiry;
  total = length items;
  approved = length (filter (λ (i : RecertItem). is_approved i.decision) items);
  revoked = length (filter (λ (i : RecertItem). has_outcome revoke_applied i.outcome) items);
  auto_revoked = length (filter (λ (i : RecertItem). has_outcome auto_revoked i.outcome) items);
  flagged = length (filter (λ (i : RecertItem). has_outcome flagged i.outcome) items);
  kept = length (filter (λ (i : RecertItem). has_outcome kept i.outcome) items);
  completion_by_reviewer = completion [] items;
  items = items;
}

-- ===== src/Recert/Samples.antt =====
-- A campaign with two items, for the tests.
use jinbe.Prelude.{
  TextOps, ℕ, String, ◌==◌, eq_iff, if◌then◌else◌, none, some, List, [], ◌∷◌, arith, Entries,
}
use jinbe.Samples.{redis, kratos, users}
use jinbe.Recert.{
  RecertState, RecertCampaign, RecertItem, Status, OnExpiry, revoke, active, pending,
}
use jinbe.Recert.Sweep.{AreKeyed}
use jinbe.Recert.Closing.Loops.{AreFiled}
use jinbe.Recert.Lifecycle.{IsKeyed}

-- The texts of the tests are trimmed and in lower case.
abbrev pub js : TextOps
js = record { trim = λ x. x; to_lower_case = λ x. x }

abbrev pub campaign : OnExpiry → Status → RecertCampaign
campaign on_expiry status = record {
  id = "c1";
  name = "Spring";
  scope_groups = some ("team" ∷ "operators" ∷ []);
  reviewers = "boss@x" ∷ "ann@x" ∷ [];
  deadline = 2_000;
  on_expiry = on_expiry;
  status = status;
  created_by = some "root@x";
  created_at = 500;
  closed_at = none;
}

abbrev pub item : String → String → String → RecertItem
item id subject group = record {
  id = id;
  campaign_id = "c1";
  subject = subject;
  group = group;
  reviewer = "boss@x";
  decision = pending;
  decided_by = none;
  decided_at = none;
  comment = none;
  outcome = none;
  context = record { tier = none; flags = []; last_active = none };
}

abbrev pub St : Type 0
St = RecertState redis kratos

abbrev pub state : RecertCampaign → Entries RecertItem → St
state c items = record {
  campaigns = (c.id, c) ∷ [];
  items = λ id. if id == "c1" then items else [];
  inbox = λ reviewer. [];
  reports = [];
  directory = users;
}

-- Bob is in the team, Ann is not.
abbrev pub two_items : Entries RecertItem
two_items = ("i1", item "i1" "bob@x" "team") ∷ ("i2", item "i2" "ann@x" "team") ∷ []

-- Kratos does not know the subject.
abbrev pub gone : Entries RecertItem
gone = ("i1", item "i1" "gone@x" "team") ∷ []

abbrev pub now : ℕ
now = 1_000

pub state-IsKeyed :
    (c : RecertCampaign) (items : Entries RecertItem) → IsKeyed redis kratos (state c items)
unfolding IsKeyed
state-IsKeyed c items id c' h = ground (arith, eq_iff c.id id)

pub two_items-AreFiled :
    (c : RecertCampaign) → AreFiled redis kratos js now "c1" (state c two_items)
unfolding AreFiled AreKeyed
two_items-AreFiled c = (
  (λ k i h. ground (arith, eq_iff "i1" k, eq_iff "i2" k)),
  (λ k i h. ground (arith, eq_iff "i1" k, eq_iff "i2" k)),
)

abbrev pub directory : List (String × List String)
directory = ("bob@x", "team" ∷ "users" ∷ []) ∷ ("ann@x", "users" ∷ []) ∷ []

abbrev pub scope : List String
scope = "team" ∷ "operators" ∷ []

abbrev pub fresh : ℕ → String
fresh n = "i"

abbrev pub before : St
before = state (campaign revoke active) two_items

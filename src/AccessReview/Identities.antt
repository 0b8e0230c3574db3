-- ===== src/AccessReview/Identities.antt =====
-- The loop over the directory in `compute` of src/services/access-review.service.ts, and the list that
-- it makes.
use jinbe.Prelude.{
  ℕ, String, Bool, true, false, not, ◌&&◌, ◌||◌, ◌==◌, if◌then◌else◌, ltb, leb, same_number, Option,
  none, some, List, [], ◌∷◌, ◌++◌, map, or_else, includes, any, filter, is_empty, length, append,
  truthy, Entries, lookup, TextOps, add_elements,
}
use jinbe.Redis.{Redis}
use jinbe.Rbac.{RbacStore, GroupDefinition}
use jinbe.Kratos.Directory.{Binding}
use jinbe.AccessReview.{GrantPath, GroupPower, classified}
use jinbe.AccessReview.Scores.{
  tier_of, score_for, is_dormant, strongest, sort_ranked, raise, broad_reach_min, sprawl_min,
}

-- what the review knows of addresses besides their groups
pub record Knowledge : Type 0 where
  pub js : TextOps
  pub sort : List String → List String
  pub get_time : String → Option ℕ
  pub now : ℕ
  pub last_seen : Entries String
  pub last_privileged : Entries String
  -- the credential pass, and whether it ran to its end
  pub mfa_by_email : Entries Bool
  pub mfa_ok : Bool
  -- who granted, and when
  pub provenance : String → Option (Option String × Option String)

pub record AccessReviewIdentity : Type 0 where
  pub id : String
  pub email : String
  pub name : Option String
  pub tier : ℕ
  pub reach : ℕ
  pub services : List String
  pub groups : List String
  pub flags : List String
  pub mfa : Bool
  pub active : Bool
  pub last_active : Option String
  pub last_privileged_action : Option String
  pub granted_by : Option String
  pub granted_at : Option String
  pub self_granted : Bool
  pub power_score : ℕ
  pub paths : List GrantPath

-- what the groups of an identity add up to
pub record GroupsReach : Type 0 where
  pub global_power : Bool
  pub wildcard_services : List String
  pub reached : List String
  pub paths : List GrantPath
  pub orphaned : Bool

abbrev pub no_reach : GroupsReach
no_reach = record {
  global_power = false;
  wildcard_services = [];
  reached = [];
  paths = [];
  orphaned = false;
}

abbrev pub join_group : String → Option GroupPower → GroupsReach → GroupsReach
join_group g none r = if g == "users" then r else record r { orphaned = true }
join_group g (some gp) r = record {
  global_power = r.global_power || gp.global_power;
  wildcard_services = add_elements gp.wildcard_services r.wildcard_services;
  reached = add_elements gp.services r.reached;
  paths = r.paths ++ gp.paths;
  orphaned = r.orphaned;
}

-- the organisations of which the address stands in the roster
unfoldable pub rostered : TextOps → String → Entries (List String) → List String
rostered js email [] = []
rostered js email ((org, roster) ∷ rest) =
    let others = rostered js email rest in
    if any (λ e. js.to_lower_case e == js.to_lower_case email) roster then org ∷ others else others

abbrev pub member_orgs : Binding → List String
member_orgs b = elim (truthy b.primary_organization) [
  | none ↦ b.organizations
  | some org ↦ b.organizations ++ org ∷ []
]

unfoldable pub admin_orgs : TextOps → Entries (List String) → String → Binding → List String
admin_orgs js rosters email b = filter (includes (member_orgs b)) (rostered js email rosters)

abbrev pub org_path : String → GrantPath
org_path org = record {
  group = append "org:" org;
  service = none;
  role = none;
  summary = append "org-admin of " (append org " (positional — org roster, not a group role)");
}

-- `!!grantedBy && grantedBy.toLowerCase() === email.toLowerCase()`
abbrev pub is_self_granted : TextOps → Option String → String → Bool
is_self_granted js granted_by email = elim (truthy granted_by) [
  | none ↦ false
  | some by ↦ js.to_lower_case by == js.to_lower_case email
]

abbrev pub none_known : Option String × Option String
none_known = (none, none)

module _ (redis : Redis) (k : Knowledge) (s : RbacStore redis) where
  -- `groupPower.get(g)`
  unfoldable pub power_of : String → Option GroupPower
  power_of g = classified redis s g (lookup g (redis.hgetall GroupDefinition s.groups))

  unfoldable pub join_groups : List String → GroupsReach → GroupsReach
  join_groups [] r = r
  join_groups (g ∷ gs) r = join_groups gs (join_group g (power_of g) r)

  module _ (services : List String) (rosters : Entries (List String)) where
    -- A global super-admin reaches every service.
    abbrev pub services_reached : GroupsReach → List String
    services_reached r = if r.global_power then add_elements services r.reached else r.reached

    unfoldable pub flags_of : String → Binding → GroupsReach → List String → List String
    flags_of email b r orgs =
        let reach = length (services_reached r) in
        let mfa_known = lookup email k.mfa_by_email in
        let granted = or_else (k.provenance email) none_known in
        raise r.orphaned "orphaned-group" (
          raise (not b.active) "inactive-retaining-power" (
            raise (k.mfa_ok && not (or_else mfa_known false)) "no-mfa" (
              raise (is_self_granted k.js granted.0 email) "self-granted" (
                raise (is_dormant k.get_time k.now (lookup email k.last_seen)) "dormant" (
                  raise (not (is_empty orgs) && leb broad_reach_min reach) "org-admin-broad-reach" (
                    raise (leb sprawl_min reach) "sprawl" (
                      raise (not (is_empty r.wildcard_services)) "wildcard"
                        (raise r.global_power "global-super-admin" []))))))))

    unfoldable pub to_identity :
        String → Binding → GroupsReach → List String → ℕ → AccessReviewIdentity
    to_identity email b r orgs tier =
        let reach = length (services_reached r) in
        let granted = or_else (k.provenance email) none_known in
        record {
          id = b.id;
          email = email;
          name = b.name;
          tier = tier;
          reach = reach;
          services = k.sort (services_reached r);
          groups = b.groups;
          flags = flags_of email b r orgs;
          mfa = or_else (lookup email k.mfa_by_email) false;
          active = b.active;
          last_active = lookup email k.last_seen;
          last_privileged_action = lookup email k.last_privileged;
          granted_by = granted.0;
          granted_at = granted.1;
          self_granted = is_self_granted k.js granted.0 email;
          power_score = score_for tier (length r.wildcard_services) (length orgs) reach;
          paths = strongest (r.paths ++ map org_path orgs);
        }

    abbrev pub tier_for : GroupsReach → List String → Option ℕ
    tier_for r orgs =
        tier_of r.global_power (not (is_empty r.wildcard_services)) (not (is_empty orgs))
          (length (services_reached r))

    -- An identity below the tier ladder is left out.
    unfoldable pub review_identity : String → Binding → Option AccessReviewIdentity
    review_identity email b =
        let r = join_groups b.groups no_reach in
        let orgs = admin_orgs k.js rosters email b in
        elim (tier_for r orgs) [ none ↦ none | some tier ↦ some (to_identity email b r orgs tier) ]

    abbrev pub cons_some :
        Option AccessReviewIdentity → List AccessReviewIdentity → List AccessReviewIdentity
    cons_some none is = is
    cons_some (some i) is = i ∷ is

    unfoldable pub review_all : Entries Binding → List AccessReviewIdentity
    review_all [] = []
    review_all ((email, b) ∷ rest) = cons_some (review_identity email b) (review_all rest)

    -- score, then tier, then reach
    abbrev pub ranks_before : AccessReviewIdentity → AccessReviewIdentity → Bool
    ranks_before a b =
        if same_number a.power_score b.power_score
        then (if same_number a.tier b.tier then ltb b.reach a.reach else ltb a.tier b.tier)
        else ltb b.power_score a.power_score

    unfoldable pub compute : Entries Binding → List AccessReviewIdentity
    compute bindings = sort_ranked ranks_before (review_all bindings)

-- the counts of the summary
pub record AccessReviewSummary : Type 0 where
  pub total_privileged : ℕ
  pub can_do_anything : ℕ
  pub self_granted : ℕ
  pub dormant : ℕ
  pub no_mfa : ℕ

unfoldable pub count_tiers : List AccessReviewIdentity → AccessReviewSummary
count_tiers is = record {
  total_privileged = length is;
  can_do_anything =
      length
        (filter (λ (i : AccessReviewIdentity). same_number i.tier 0 || same_number i.tier 1) is);
  self_granted = length (filter (λ (i : AccessReviewIdentity). i.self_granted) is);
  dormant = length (filter (λ (i : AccessReviewIdentity). includes i.flags "dormant") is);
  no_mfa = length (filter (λ (i : AccessReviewIdentity). includes i.flags "no-mfa") is);
}

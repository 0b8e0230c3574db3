-- ===== src/AccessReview/Tests.antt =====
-- Tests of the access review, and its theorems in a small deployment.
use mathlib.Core.Option.{some-injective}
use jinbe.Prelude.{
  String, ◌≡◌, refl, subst, inl, inr, true, ◌==◌, Bool-cases, none, some, List, [], ◌∷◌, All,
  Entries, lookup, map, any,
}
use jinbe.Samples.{redis, store, group_definitions}
use jinbe.Rbac.{GroupDefinition}
use jinbe.Kratos.Directory.{Binding}
use jinbe.AccessReview.{classify_role, classify_roles, classify}
use jinbe.AccessReview.Scores.{tier_of, score_for, is_dormant, path_rank, strongest}
use jinbe.AccessReview.Identities.{
  Knowledge, AccessReviewIdentity, compute, review_all, review_identity, to_identity, flags_of,
  join_groups, power_of, admin_orgs, rostered,
}
use jinbe.AccessReview.Admins.{IsObject}
use jinbe.AccessReview.Tiers.{
  IsTiered, AreObjects, is_admin_entry, is_admin_binding, compute-IsTiered,
}

abbrev knowledge : Knowledge
knowledge = record {
  js = record { trim = λ s. s; to_lower_case = λ s. s };
  sort = λ s. s;
  get_time = λ date. none;
  now = 0;
  last_seen = [];
  last_privileged = [];
  mfa_by_email = ("root@x", true) ∷ [];
  mfa_ok = true;
  provenance = λ email. none;
}

abbrev with_groups : String → List String → Binding
with_groups id groups = record {
  groups = groups;
  organizations = [];
  primary_organization = some "acme";
  active = true;
  id = id;
  name = none;
}

abbrev directory : Entries Binding
directory =
    ("ann@x", with_groups "1" ("users" ∷ []))
    ∷ ("boss@x", with_groups "2" ("users" ∷ []))
    ∷ ("ops@x", with_groups "3" ("operators" ∷ []))
    ∷ ("root@x", with_groups "4" ("super_admins" ∷ "gone" ∷ []))
    ∷ []

abbrev rosters : Entries (List String)
rosters = ("acme", "boss@x" ∷ []) ∷ ("other", "ann@x" ∷ []) ∷ []

abbrev reviewed : List AccessReviewIdentity
reviewed = compute redis knowledge store ("billing" ∷ []) rosters directory

listed_emails :
    map (λ (i : AccessReviewIdentity). i.email) reviewed ≡ "root@x" ∷ "ops@x" ∷ "boss@x" ∷ []
unfolding compute review_all review_identity to_identity flags_of join_groups power_of admin_orgs
    rostered classify classify_roles classify_role tier_of score_for is_dormant path_rank strongest
listed_emails = refl

root_flags :
    map (λ (i : AccessReviewIdentity). i.flags) reviewed
    ≡ ("global-super-admin" ∷ "dormant" ∷ "orphaned-group" ∷ [])
      ∷ ("wildcard" ∷ "dormant" ∷ "no-mfa" ∷ [])
      ∷ ("dormant" ∷ "no-mfa" ∷ [])
      ∷ []
unfolding compute review_all review_identity to_identity flags_of join_groups power_of admin_orgs
    rostered classify classify_roles classify_role tier_of score_for is_dormant path_rank strongest
root_flags = refl

IsObject-lookup :
    (g : String) (m : Entries GroupDefinition) (def : GroupDefinition)
    → All (λ (k, v). IsObject v) m
    → lookup g m ≡ some def
    → IsObject def
IsObject-lookup g [] def h e = cc
IsObject-lookup g ((j, v) ∷ m) def (o, h) e = elim (Bool-cases (j == g)) [
  | inl here ↦ subst IsObject (some-injective v def (rw here at e)) o
  | inr other ↦ IsObject-lookup g m def h (rw other at e)
]

objects : AreObjects redis knowledge store
objects g def e =
    IsObject-lookup g group_definitions def (tt, ((refl, tt), ((refl, tt), ((refl, tt), tt)))) e

compute-IsTiered_example :
    ((email : String)
      → any (is_admin_entry redis knowledge store ("billing" ∷ []) rosters email) reviewed
        ≡ any (is_admin_binding redis knowledge store ("billing" ∷ []) rosters email) directory)
    × All (IsTiered redis knowledge store ("billing" ∷ []) rosters) reviewed
compute-IsTiered_example =
    compute-IsTiered redis knowledge store ("billing" ∷ []) rosters directory objects

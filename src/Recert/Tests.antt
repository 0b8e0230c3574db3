-- ===== src/Recert/Tests.antt =====
-- The properties of generation and of decisions at a campaign with two items.
use jinbe.Prelude.{◌≡◌, refl, true, eq_iff, some, List, [], ◌∷◌, Result, ok, any}
use jinbe.Kratos.{get_user_groups, update_user_groups, without_group, groups_of}
use jinbe.Samples.{redis, kratos, bob}
use jinbe.Recert.{
  RecertItem, revoke, draft, active, revoked, revoke_applied, Error, get_item,
  remove_group_membership,
}
use jinbe.Recert.Generation.{generate_items}
use jinbe.Recert.Generation.Laws.{covers, generate_items-covers}
use jinbe.Recert.Decisions.{Admitted, apply_decision, complete_if_done, decide, decider}
use jinbe.Recert.Decisions.Guards.{IsAllowed, IsRecorded, decide-IsAllowed}
use jinbe.Recert.Decisions.Effects.{decide-IsRemoved}
use jinbe.Recert.Decisions.Stored.{decide-IsStoredAs, IsStoredAs}
use jinbe.Recert.Membership.{IsRemoved}
use jinbe.Recert.Samples.{
  js, campaign, item, St, two_items, now, state-IsKeyed, two_items-AreFiled, directory, scope,
  fresh, before,
}

-- activation

abbrev made : List RecertItem
made = generate_items js fresh [] scope (campaign revoke draft) 0 directory

generate_items-covers_example :
    any (covers js fresh [] scope (campaign revoke draft) "bob@x" "team") made ≡ true
generate_items-covers_example =
    generate_items-covers js fresh [] scope (campaign revoke draft) 0 []
      (("ann@x", "users" ∷ []) ∷ []) "bob@x" ("team" ∷ "users" ∷ []) "team" refl refl

-- a decision

abbrev revocation : Result Error RecertItem × St
revocation = decide redis kratos js now "c1" "i1" revoked (some "left") (some "boss@x") before

abbrev revoked_item : RecertItem
revoked_item = record (item "i1" "bob@x" "team") {
  decision = revoked;
  decided_by = some "boss@x";
  decided_at = some now;
  comment = some "left";
  outcome = some revoke_applied;
}

revocation-ok : revocation ≡ (ok revoked_item, revocation.1)
unfolding decide apply_decision complete_if_done remove_group_membership get_user_groups
    update_user_groups without_group
revocation-ok = refl

decide-IsAllowed_example :
    (a : Admitted redis kratos js now) × IsAllowed redis kratos js now before revocation.1 "c1" "i1"
      revoked
      (some "left")
      (some "boss@x")
      a
    × IsRecorded redis kratos js now before revocation.1 "c1" "i1" revoked
        (some "left")
        (some "boss@x")
        a
        revoked_item
decide-IsAllowed_example =
    decide-IsAllowed redis kratos js now before revocation.1 "c1" "i1" revoked (some "left")
      (some "boss@x") revoked_item revocation-ok

decide-IsRemoved_example :
    (revoked_item.outcome ≡ some revoke_applied)
    × IsRemoved redis kratos revocation.1.directory "bob@x" "team" (groups_of bob)
decide-IsRemoved_example =
    decide-IsRemoved redis kratos js now "c1" "i1" (some "left") (some "boss@x") before revocation.1
      revoked_item bob revocation-ok (λ e. cc ((eq_iff "team" "users").1 e)) refl refl

decide-IsStoredAs_example :
    ((i : RecertItem) × (get_item redis kratos before "c1" "i1" ≡ some i)
      × (revoked_item ≡ record i {
        decision = revoked;
        decided_by = decider redis kratos js now (some "boss@x");
        decided_at = some now;
        comment = some "left";
        outcome = some revoke_applied;
      }))
    × IsStoredAs redis kratos js now "c1" revocation.1 "i1" revoked_item
decide-IsStoredAs_example =
    decide-IsStoredAs redis kratos js now "c1" "i1" revoked (some "left") (some "boss@x") before
      revocation.1 revoked_item (two_items-AreFiled (campaign revoke active))
      (state-IsKeyed (campaign revoke active) two_items) revocation-ok

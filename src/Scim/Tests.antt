-- ===== src/Scim/Tests.antt =====
-- Tests of the SCIM service, and its theorems at concrete requests.
use jinbe.Prelude.{
  String, ◌≡◌, refl, true, false, Option, none, some, List, [], ◌∷◌, Result, ok, err, TextOps,
  arith,
}
use jinbe.Kratos.{update_identity, find_by_email, Identity, Failure}
use jinbe.Samples.{bob, users, kratos}
use jinbe.Scim.{get_identity_or_404, scim_error, to_scim_user}
use jinbe.Scim.Writes.{apply_identity_update, uniqueness}
use jinbe.Scim.Patch.{
  patch_identity, apply_operations, apply_operation, apply_attribute, coerce_boolean,
  PatchOperation, string, flag, object, field, no_fields, patch_user,
}
use jinbe.Scim.Filter.{user_name, external_id, parse_filter, show_filter, parse_filter-show_filter}
use jinbe.Scim.Listing.{
  pos, negsuc, ListOptions, ListResponse, list_users, list_all_identities, walk,
}
use jinbe.Scim.Paging.{IsBounded, list_users-IsBounded}
use jinbe.Scim.Routes.{authenticated, patch_one, handle, sent, audited, notified}
use jinbe.Scim.Preserved.{IsWritten}
use jinbe.Scim.Managed.{Answers, handle-IsWritten}

-- The texts of the tests are trimmed and in lower case.
abbrev js : TextOps
js = record { trim = λ x. x; to_lower_case = λ x. x }

-- a directory of one page
abbrev pages : List Identity → Option String → Result Failure (List Identity × Option String)
pages w token = ok (w, none)

abbrev by_external_id : ListOptions
by_external_id = record {
  filter = some " ExternalID  eq \"x\" ";
  start_index = some (negsuc 4);
  count = some (pos 900);
}

spaced_filter : parse_filter by_external_id.filter ≡ ok (some (external_id, "x"))
unfolding parse_filter
spaced_filter = refl

other_filter : parse_filter (some "userName co \"x\"") ≡ err (scim_error 501 none)
unfolding parse_filter
other_filter = refl

parse_filter-show_filter_example :
    parse_filter (some (show_filter user_name "ann@x")) ≡ ok (some (user_name, "ann@x"))
parse_filter-show_filter_example = parse_filter-show_filter user_name "ann@x" (grind arith)

-- the second user, of a page that asks for too many
abbrev from_second : ListOptions
from_second = record { filter = none; start_index = some (pos 2); count = some (pos 900) }

abbrev second_page : ListResponse
second_page = record {
  total_results = 2;
  start_index = 2;
  items_per_page = 1;
  resources = to_scim_user bob ∷ [];
}

list_users-IsBounded_example : IsBounded second_page
unfolding list_users parse_filter list_all_identities walk
list_users-IsBounded_example =
    list_users-IsBounded kratos pages js users from_second second_page refl

abbrev deactivate : PatchOperation
deactivate = record {
  op = "replace";
  path = none;
  value = some (object (field "active" (flag false) no_fields));
}

-- Ann after that request
abbrev inactive_ann : Identity
inactive_ann = record {
  id = "id-ann";
  content = record {
    schema_id = "default";
    state = "inactive";
    traits = record { email = some "ann@x"; name = some "Ann Lee" };
    metadata_admin = some (record {
      groups = some ("users" ∷ []);
      scim = some (record { external_id = none; managed = true; idp = "idp" });
      other = [];
    });
  };
}

handle-IsWritten_example :
    (current : Identity) × (i : Identity) × (kratos.get users "id-ann" ≡ ok current)
    × IsWritten kratos users (inactive_ann ∷ bob ∷ []) "idp" current i
    × Answers kratos js (sent 200 (some (to_scim_user inactive_ann))) i
unfolding handle authenticated patch_user patch_identity apply_operations apply_operation
    apply_attribute coerce_boolean get_identity_or_404 apply_identity_update update_identity
    to_scim_user uniqueness
handle-IsWritten_example =
    handle-IsWritten kratos js users (inactive_ann ∷ bob ∷ []) "id-ann" "idp"
      (patch_one "id-ann" (deactivate ∷ [])) (sent 200 (some (to_scim_user inactive_ann)))
      (audited "update" "user:ann@x") (notified "updated" "id-ann" ∷ []) refl refl

-- an operation that SCIM does not know, after one that it does

-- the e-mail of another user
taken :
    (handle kratos js users (some "idp") (
      patch_one "id-ann"
        (record { op = "replace"; path = some "username"; value = some (string "bob@x") } ∷ []))).0
    ≡ sent 409 none
unfolding handle authenticated patch_user patch_identity apply_operations apply_operation
    apply_attribute coerce_boolean get_identity_or_404 uniqueness find_by_email
taken = refl

-- ===== src/Services/Reads/Tests.antt =====
-- Tests of the walks over a directory of two pages, and their theorems there.
use jinbe.Prelude.{String, ◌≡◌, refl, Option, none, some, List, [], ◌∷◌, Result, ok, Entries, arith}
use jinbe.Kratos.{Failure}
use jinbe.Kratos.Directory.{
  Listed, Page, Binding, Serves, last, more, get_all_identities_with_bindings,
}
use jinbe.Services.Reads.{get_bindings_from_kratos}
use jinbe.Services.Reads.Everyone.{last_listed, Tells, get_all_identities_with_bindings-told}

abbrev person : String → String → Option String → Listed
person id email org = record {
  id = id;
  state = "active";
  email = some email;
  name = none;
  groups = some ("team" ∷ []);
  organizations = none;
  organization_id = org;
  trait_organization_id = none;
}

abbrev first_page : Page
first_page = record {
  identities = person "1" "ann@x" (some "acme") ∷ person "2" "bob@x" none ∷ [];
  next_page_token = some "p2";
}

abbrev last_page : Page
last_page = record { identities = person "3" "cat@x" (some "acme") ∷ []; next_page_token = none }

abbrev fetch : Option String → Result Failure Page
fetch none = ok first_page
fetch (some token) = ok last_page

abbrev everyone : List Listed
everyone =
    person "1" "ann@x" (some "acme")
    ∷ person "2" "bob@x" none
    ∷ person "3" "cat@x" (some "acme")
    ∷ []

served : Serves fetch [] none 2 everyone
served =
    more {before = []} {token = none} first_page "p2" refl refl refl refl (last last_page refl refl)

get_all_identities_with_bindings-told_example :
    (bindings : Entries Binding) × (get_all_identities_with_bindings fetch ≡ ok bindings)
    × ((email : String)
        → Tells (get_bindings_from_kratos bindings) email (last_listed email everyone))
get_all_identities_with_bindings-told_example =
    get_all_identities_with_bindings-told fetch served (omega arith)

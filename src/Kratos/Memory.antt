-- ===== src/Kratos/Memory.antt =====
-- A Kratos server that keeps its identities in a list: it meets what `Kratos` asks for.
use jinbe.Prelude.{
  String, ◌≡◌, ap, ◌∙◌, Bool, true, ◌==◌, eq_refl, if◌then◌else◌, Option, none, some, List, [], ◌∷◌,
  ◌++◌, Result, ok, err, arith, includes, find?, find?-passes, or_else, Bool-cases, inl, inr,
}
use mathlib.Core.Option.{some-injective}
use jinbe.Kratos.{Kratos, Identity, Failure, api_error, IdentityData}

abbrev pub has_id : String → Identity → Bool
has_id id i = i.id == id

abbrev pub has_email : String → Identity → Bool
has_email e i = or_else i.content.traits.email "" == e

abbrev pub to_page : Option Identity → List Identity
to_page none = []
to_page (some i) = i ∷ []

abbrev pub page : List Identity → Result Failure (List Identity)
page is = ok is

abbrev pub to_reply : Option Identity → Result Failure Identity
to_reply none = err (api_error 404)
to_reply (some i) = ok i

abbrev pub by_email : List Identity → String → Option Identity
by_email w e = find? (has_email e) w

abbrev pub by_id : List Identity → String → Option Identity
by_id w id = find? (has_id id) w

abbrev pub replace : String → Identity → List Identity → List Identity
replace id i [] = []
replace id i (j ∷ w) = if has_id id j then i ∷ w else j ∷ replace id i w

abbrev pub stored : String → IdentityData → Identity
stored id d = record { id = id; content = d }

abbrev pub put_reply :
    List Identity
    → String
    → IdentityData
    → Option Identity
    → Result Failure Identity × List Identity
put_reply w id d none = (err (api_error 404), w)
put_reply w id d (some j) = (ok (stored id d), replace id (stored id d) w)

abbrev pub put_memory :
    List Identity → String → IdentityData → Result Failure Identity × List Identity
put_memory w id d = put_reply w id d (by_id w id)

pub put_content :
    (w w' : List Identity) (id : String) (d : IdentityData) (i : Identity)
    → put_memory w id d ≡ (ok i, w')
    → i ≡ stored id d
put_content w w' id d i h = ground arith

put_world :
    (w w' : List Identity) (id : String) (d : IdentityData) (i : Identity)
    → put_memory w id d ≡ (ok i, w')
    → w' ≡ replace id i w
put_world w w' id d i h = ground arith

by_email-replace :
    (w : List Identity) (e : String) (i j : Identity)
    → by_email w e ≡ some j
    → by_id w j.id ≡ some j
    → i.content.traits.email ≡ j.content.traits.email
    → by_email (replace j.id i w) e ≡ some i
by_email-replace [] e i j found held same = cc
by_email-replace (x ∷ w) e i j found held same =
    let passes : has_email e i ≡ true =
      ap (λ (o : Option String). or_else o "" == e) same
      ∙ find?-passes (has_email e) (x ∷ w) j found in
    elim (Bool-cases (has_id j.id x)) [
      | inl here ↦ rw (here, passes)
      | inr later ↦ elim (Bool-cases (has_email e x)) [
        | inl first ↦
            let at_head : x ≡ j = some-injective x j (rw first at found) in
            cc (at_head, eq_refl j.id, later)
        | inr other ↦
            rw (later, other) (by_email-replace w e i j (rw other at found) (rw later at held) same)
      ]
    ]

to_page-injective : (o : Option Identity) (j : Identity) → to_page o ≡ j ∷ [] → o ≡ some j
to_page-injective none j h = cc
to_page-injective (some i) j h = cc

to_reply-injective : (o : Option Identity) (j : Identity) → to_reply o ≡ ok j → o ≡ some j
to_reply-injective none j h = cc
to_reply-injective (some i) j h = cc

ok-injective : (xs ys : List Identity) → page xs ≡ page ys → xs ≡ ys
ok-injective xs ys h = cc

pub get_identities-put :
    (w w' : List Identity) (e : String) (d : IdentityData) (i j : Identity)
    → page (to_page (by_email w e)) ≡ ok (j ∷ [])
    → to_reply (by_id w j.id) ≡ ok j
    → d.traits.email ≡ j.content.traits.email
    → put_memory w j.id d ≡ (ok i, w')
    → page (to_page (by_email w' e)) ≡ ok (i ∷ [])
get_identities-put w w' e d i j found held same done =
    let written = put_content w w' j.id d i done in
    rw (put_world w w' j.id d i done) (
      ap (λ (o : Option Identity). page (to_page o))
        (by_email-replace w e i j (to_page-injective _ j (ok-injective _ _ found))
          (to_reply-injective _ j held)
          (ap (λ (x : Identity). x.content.traits.email) written ∙ same)))

-- `mfa` lists the identities with a second factor.
abbrev pub memory : List String → Kratos
memory mfa = record {
  World = List Identity;
  get_identities = λ w e. page (to_page (by_email w e));
  get_directory = λ w. ok w;
  get = λ w id. to_reply (by_id w id);
  post = λ w d. (ok (stored "new" d), w ++ stored "new" d ∷ []);
  put = put_memory;
  delete_sessions = λ w id. (ok tt, w);
  get_mfa = λ w id. ok (includes mfa id);
  put_content = put_content;
  get_identities-put = get_identities-put;
}

-- ===== src/Scim/Patch.antt =====
-- `patchUser` of src/services/scim.service.ts: the operations of a PATCH, one after another, and
-- the update that they add up to.

use text.Mathlib.Text.{starts_with}
use jinbe.Prelude.{
  head?, String, Bool, true, false, ◌||◌, ◌==◌, if◌then◌else◌, Option, none, some, List, [], ◌∷◌,
  or_else, Result, ok, err, TextOps, truthy, present, split, join,
}
use jinbe.Kratos.{Kratos, Identity}
use jinbe.Scim.{ScimError, scim_error, get_identity_or_404}
use jinbe.Scim.Writes.{ScimUpdate, Reply, uniqueness, apply_identity_update}

-- `unknown`: JSON. `other` is null, a number or an array: whether JavaScript takes it for true, and
-- the text that it makes of it.
mutual
  pub data Value : Type 0 where
    string : String → Value
    flag : Bool → Value
    object : Fields → Value
    other : Bool → String → Value

  pub data Fields : Type 0 where
    no_fields : Fields
    field : String → Value → Fields → Fields

pub record PatchOperation : Type 0 where
  pub op : String
  pub path : Option String
  pub value : Option Value

-- `changes` and the parts of the name
pub record Changes : Type 0 where
  pub email : Option String
  pub name : Option String
  pub active : Option Bool
  pub external_id : Option (Option String)
  pub given_name : String
  pub family_name : String
  pub name_touched : Bool

invalid_value : ScimError
invalid_value = scim_error 400 (some "invalidValue")

-- the first field of the name
abbrev pub get_field : String → Fields → Option Value
get_field name no_fields = none
get_field name (field n v rest) = if n == name then some v else get_field name rest

-- the text of a value, unless it is false to JavaScript
abbrev pub text_of : Option Value → Option String
text_of none = none
text_of (some (string s)) = truthy (some s)
text_of (some (flag b)) = if b then some "true" else none
text_of (some (object fs)) = some "[object Object]"
text_of (some (other b s)) = if b then some s else none

-- `typeof value === 'string' ? value : …`
abbrev pub as_text : Option Value → Option String
as_text (some (string s)) = some s
as_text _ = none

abbrev pub fields_of : Option Value → Fields
fields_of (some (object fs)) = fs
fields_of _ = no_fields

-- `[v.givenName, v.familyName].filter(Boolean).join(' ') || v.formatted`, where true
abbrev pub joined_name : Fields → Option String
joined_name v =
    let parts =
      present (text_of (get_field "givenName" v) ∷ text_of (get_field "familyName" v) ∷ []) in
    elim (truthy (some (join parts))) [ some s ↦ some s | none ↦ text_of (get_field "formatted" v) ]

module _ (js : TextOps) where
  unfoldable pub coerce_boolean : Option Value → Option Bool
  coerce_boolean (some (flag b)) = some b
  coerce_boolean (some (string s)) =
      let low = js.to_lower_case (js.trim s) in
      if low == "true" then some true else if low == "false" then some false else none
  coerce_boolean _ = none

  -- `typeof value === 'string' && value.trim()`, in lower case
  abbrev pub email_change : Option Value → Changes → Changes
  email_change v c = elim (as_text v) [
    | none ↦ c
    | some s ↦
        if js.trim s == "" then c else record c { email = some (js.to_lower_case (js.trim s)) }
  ]

  apply_active : Option Value → Changes → Result ScimError Changes
  unfolding invalid_value
  apply_active v c = elim (coerce_boolean v) [
    | none ↦ err invalid_value
    | some b ↦ ok (record c { active = some b })
  ]

  unfoldable pub apply_attribute : String → Option Value → Changes → Result ScimError Changes
  unfolding apply_active
  apply_attribute path v c =
      let low = js.to_lower_case path in
      if low == "active"
      then apply_active v c
      else if low == "username"
      then ok (email_change v c)
      else if starts_with low "emails"
      then ok (email_change v c)
      else if low == "name.givenname"
      then ok (record c { given_name = or_else (as_text v) ""; name_touched = true })
      else if low == "name.familyname"
      then ok (record c { family_name = or_else (as_text v) ""; name_touched = true })
      else if low == "name.formatted" || low == "displayname"
      then ok (record c { name = elim (as_text v) [ none ↦ c.name | some n ↦ some n ] })
      else if low == "name"
      then ok
          (record c { name = elim (joined_name (fields_of v)) [ none ↦ c.name | some n ↦ some n ] })
      else if low == "externalid"
      then ok (record c { external_id = some (as_text v) })
      else ok c

  -- `for (const [attr, v] of Object.entries(value))`
  apply_fields : Fields → Changes → Result ScimError Changes
  apply_fields no_fields c = ok c
  apply_fields (field n v rest) c = elim (apply_attribute n (some v) c) [
    | err e ↦ err e
    | ok c' ↦ apply_fields rest c'
  ]

  -- an operation without a path
  apply_object : Option Value → Changes → Result ScimError Changes
  unfolding apply_fields invalid_value
  apply_object (some (object fs)) c = apply_fields fs c
  apply_object _ c = err invalid_value

  apply_removal : Option String → Changes → Changes
  apply_removal none c = c
  apply_removal (some path) c =
      if js.to_lower_case path == "externalid" then record c { external_id = some none } else c

  unfoldable pub apply_operation : PatchOperation → Changes → Result ScimError Changes
  unfolding apply_object apply_removal
  apply_operation o c =
      let op = js.to_lower_case o.op in
      let set : Result ScimError Changes = elim (truthy o.path) [
        | some path ↦ apply_attribute path o.value c
        | none ↦ apply_object o.value c
      ] in
      if op == "remove"
      then ok (apply_removal o.path c)
      else if op == "add" || op == "replace"
      then set
      else err (scim_error 400 (some "invalidSyntax"))

  unfoldable pub apply_operations : List PatchOperation → Changes → Result ScimError Changes
  apply_operations [] c = ok c
  apply_operations (o ∷ os) c = elim (apply_operation o c) [
    | err e ↦ err e
    | ok c' ↦ apply_operations os c'
  ]

-- `changes` before the first operation; the name of the user is split at its spaces
abbrev pub no_changes : List String → Changes
no_changes parts = record {
  email = none;
  name = none;
  active = none;
  external_id = none;
  given_name = or_else (head? parts) "";
  family_name = elim parts [ [] ↦ "" | p ∷ ps ↦ join ps ];
  name_touched = false;
}

abbrev pub changed_name : Changes → Option String
changed_name c =
    let joined = join (present (some c.given_name ∷ some c.family_name ∷ [])) in
    elim c.name [ some n ↦ some n | none ↦ (if c.name_touched then some joined else none) ]

-- the update that the changes make
abbrev pub patched : Identity → Changes → String → ScimUpdate
patched current c token_id = record {
  email = elim c.email [ some e ↦ some e | none ↦ current.content.traits.email ];
  name = changed_name c;
  active = or_else c.active (current.content.state == "active");
  external_id = or_else c.external_id none;
  external_id_cleared = elim c.external_id [ some none ↦ true | _ ↦ false ];
  token_id = token_id;
}

module _ (k : Kratos) (js : TextOps) where
  unfoldable pub patch_identity :
      k.World → Identity → String → List PatchOperation → String → Reply k
  patch_identity w current id operations token_id =
      let start = no_changes (split (or_else current.content.traits.name "")) in
      elim (apply_operations js operations start) [
        | err e ↦ (err e, w)
        | ok c ↦ elim (uniqueness k w current id (truthy c.email)) [
          | some e ↦ (err e, w)
          | none ↦ apply_identity_update k w current (patched current c token_id)
        ]
      ]

  -- PATCH /Users/:id
  unfoldable pub patch_user : k.World → String → List PatchOperation → String → Reply k
  unfolding patch_identity
  patch_user w id [] token_id = (err (scim_error 400 (some "invalidSyntax")), w)
  patch_user w id (o ∷ os) token_id = elim (get_identity_or_404 k w id) [
    | err e ↦ (err e, w)
    | ok current ↦ patch_identity w current id (o ∷ os) token_id
  ]

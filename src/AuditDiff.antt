-- ===== src/AuditDiff.antt =====
-- src/services/audit-diff.ts: what the audit trail says of a change of a group, of the roles or the
-- routes of a service, of an access rule, and of the groups of a user.
pub mod Texts
pub mod Sets
pub mod Routes
mod Tests
use text.Mathlib.Text.{find?}
use jinbe.Prelude.{
  ℕ, zero, suc, String, Bool, true, false, not, ◌&&◌, ◌||◌, ◌==◌, if◌then◌else◌, Option, none, some,
  List, [], ◌∷◌, ◌++◌, map, or_else, includes, any, filter, is_empty, is_some, length, append,
  truthy, Entries, lookup, insert, add_elements, keys, ends_with,
}
use jinbe.Rbac.{GroupDefinition, FlatRolesMap, RouteRule}
use jinbe.Gateway.{OathkeeperRule, Handler}
use jinbe.AuditDiff.Texts.{Formats, summarize, join_with, strip_userinfo}

pub data AuditFlag : Type 0 where
  opened_to_public auth_disabled grants_super_admin wildcard_permission : AuditFlag

pub record AuditChanges : Type 0 where
  pub resource : String
  pub id : String
  pub added : List String
  pub removed : List String
  pub changed_keys : List String
  pub flags : List AuditFlag
  pub summary : String

-- `arrDiff`, over the sets of what stands in the lists
abbrev pub missing_in : List String → String → Bool
missing_in other x = not (includes other x)

abbrev pub added_in : List String → List String → List String
added_in before after = filter (missing_in before) (add_elements after [])

abbrev pub removed_in : List String → List String → List String
removed_in before after = filter (missing_in after) (add_elements before [])

-- `if (b) flags.push(f)`
abbrev pub flag_if : Bool → AuditFlag → List AuditFlag
flag_if b f = if b then f ∷ [] else []

-- `${key}:${value}` for each value of each entry
abbrev pub pairs : String → List String → List String
pairs key [] = []
pairs key (v ∷ vs) = append key (append ":" v) ∷ pairs key vs

unfoldable pub flatten : Entries (List String) → List String
flatten [] = []
flatten ((key, vs) ∷ m) = pairs key vs ++ flatten m

module _ (t : Formats) where
  unfoldable pub diff_group_definition :
      String → Option GroupDefinition → GroupDefinition → AuditChanges
  diff_group_definition name before after =
      let added = added_in (flatten (or_else before [])) (flatten after) in
      let removed = removed_in (flatten (or_else before [])) (flatten after) in
      record {
        resource = "group";
        id = name;
        added = added;
        removed = removed;
        changed_keys = [];
        flags = flag_if (includes added "global:super_admin") grants_super_admin;
        summary = summarize t (append "group '" (append name "'")) added removed;
      }

  unfoldable pub diff_roles : String → Option FlatRolesMap → FlatRolesMap → AuditChanges
  diff_roles service before after =
      let added = added_in (flatten (or_else before [])) (flatten after) in
      let removed = removed_in (flatten (or_else before [])) (flatten after) in
      record {
        resource = "roles";
        id = service;
        added = added;
        removed = removed;
        changed_keys = [];
        flags =
            flag_if
              (any (λ (role, perms). includes perms "*") after && any (λ x. ends_with x ":*") added)
              wildcard_permission;
        summary = summarize t (append "roles for '" (append service "'")) added removed;
      }

  -- a group of super admins, and a group with admin power by its name
  abbrev pub names_super_admin : String → Bool
  names_super_admin g = is_some (find? (t.lower_ascii g) "super_admin")

  abbrev pub names_admin : String → Bool
  names_admin g =
      names_super_admin g
      || ends_with (t.lower_ascii g) "admin"
      || ends_with (t.lower_ascii g) "admins"
      || is_some (find? (t.lower_ascii g) "org_admins")

  unfoldable pub diff_user_groups : String → List String → List String → AuditChanges
  diff_user_groups target old_groups new_groups =
      let added = added_in old_groups new_groups in
      let removed = removed_in old_groups new_groups in
      let super_admin = any names_super_admin added in
      record {
        resource = "user_groups";
        id = target;
        added = added;
        removed = removed;
        changed_keys = [];
        flags =
            flag_if super_admin grants_super_admin
            ++ flag_if (any names_admin added && not super_admin) wildcard_permission;
        summary = summarize t "group membership" added removed;
      }

  -- `${key} → ${permission}`, or `(public)` where there is none
  abbrev pub shown_route : String → String → String
  shown_route key perm = append key (append " → " (if perm == "" then "(public)" else perm))

  abbrev pub route_key : RouteRule → String
  route_key r = append (t.to_upper_case r.method) (append " " r.path)

  -- the map from the key of a route to its permission, in which a later rule replaces an earlier one
  unfoldable pub route_table : List RouteRule → Entries String → Entries String
  route_table [] m = m
  route_table (r ∷ rules) m = route_table rules (insert (route_key r) (or_else r.permission "") m)

  abbrev pub added_route : String → String → Option String → List String
  added_route key perm none = shown_route key perm ∷ []
  added_route key perm (some previous) = if previous == perm then [] else shown_route key perm ∷ []

  -- a new route without a permission, or one that had a permission and has none
  abbrev pub opens : String → Option String → Bool
  opens perm none = perm == ""
  opens perm (some previous) = not (previous == perm) && not (previous == "") && perm == ""

  unfoldable pub added_routes : Entries String → Entries String → List String
  added_routes before [] = []
  added_routes before ((key, perm) ∷ after) =
      added_route key perm (lookup key before) ++ added_routes before after

  unfoldable pub opened : Entries String → Entries String → Bool
  opened before [] = false
  opened before ((key, perm) ∷ after) = opens perm (lookup key before) || opened before after

  unfoldable pub removed_routes : Entries String → Entries String → List String
  removed_routes after [] = []
  removed_routes after ((key, perm) ∷ before) =
      let rest = removed_routes after before in
      if is_some (lookup key after) then rest else shown_route key perm ∷ rest

  unfoldable pub diff_route_map : String → List RouteRule → List RouteRule → AuditChanges
  diff_route_map service before after =
      let old = route_table before [] in
      let new = route_table after [] in
      let added = added_routes old new in
      let removed = removed_routes new old in
      record {
        resource = "route_map";
        id = service;
        added = added;
        removed = removed;
        changed_keys = [];
        flags = flag_if (opened old new) opened_to_public;
        summary = summarize t (append "routes for '" (append service "'")) added removed;
      }

  abbrev pub handler_names : List Handler → List String
  handler_names [] = []
  handler_names (h ∷ hs) = h.handler ∷ handler_names hs

  -- the structure of a rule, without the configuration of its handlers
  abbrev pub structure : OathkeeperRule → Entries String
  structure r =
      ("matchUrl", r.pattern.url)
      ∷ ("methods", join_with "," r.pattern.methods)
      ∷ ("upstream", strip_userinfo t (some r.upstream.url))
      ∷ ("authenticators", join_with "," (handler_names r.authenticators))
      ∷ ("authorizer", r.authorizer.handler)
      ∷ ("mutators", join_with "," (handler_names r.mutators))
      ∷ []

  -- `${key}: ${value}`, unless the value is empty
  abbrev pub field_line : String → Option String → List String
  field_line key value = elim (truthy value) [
    | none ↦ []
    | some v ↦ append key (append ": " v) ∷ []
  ]

  abbrev pub is_changed : Option String → String → Bool
  is_changed none value = true
  is_changed (some old) value = not (old == value)

  unfoldable pub changed_fields : Entries String → Entries String → List String
  changed_fields before [] = []
  changed_fields before ((key, value) ∷ after) =
      let rest = changed_fields before after in
      if is_changed (lookup key before) value then key ∷ rest else rest

  -- the lines of the fields that have changed, with the values of `values`
  unfoldable pub field_lines : Entries String → List String → List String
  field_lines values [] = []
  field_lines values (key ∷ ks) = field_line key (lookup key values) ++ field_lines values ks

  abbrev pub is_weak : String → Bool
  is_weak = includes ("noop" ∷ "anonymous" ∷ "unauthorized" ∷ [])

  abbrev pub fields_before : Option OathkeeperRule → Entries String
  fields_before none = []
  fields_before (some r) = structure r

  abbrev pub weak_before : Option OathkeeperRule → Bool
  weak_before none = false
  weak_before (some r) = any is_weak (handler_names r.authenticators)

  abbrev pub allowed_before : Option OathkeeperRule → Bool
  allowed_before none = false
  allowed_before (some r) = r.authorizer.handler == "allow"

  unfoldable pub diff_oathkeeper_rule :
      String → Option OathkeeperRule → OathkeeperRule → AuditChanges
  diff_oathkeeper_rule id before after =
      let changed = changed_fields (fields_before before) (structure after) in
      let weakened = any is_weak (handler_names after.authenticators) && not (weak_before before) in
      let allows = after.authorizer.handler == "allow" && not (allowed_before before) in
      record {
        resource = "access_rule";
        id = id;
        added = field_lines (structure after) changed;
        removed = field_lines (fields_before before) changed;
        changed_keys = changed;
        flags =
            flag_if weakened auth_disabled
            ++ flag_if allows opened_to_public
            ++ flag_if (allows && not weakened) auth_disabled;
        summary = append "access rule '" (
            append id (
              append "' changed: "
                (if is_empty changed then "no structural change" else join_with ", " changed)));
      }

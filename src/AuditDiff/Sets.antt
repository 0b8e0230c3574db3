-- ===== src/AuditDiff/Sets.antt =====
-- The differences of src/services/audit-diff.ts hide nothing: what they list as added and removed is what
-- the texts after and before have more.
use jinbe.Prelude.{
  String, ◌≡◌, ◌∙◌, Bool, not, ◌&&◌, ◌||◌, Option, List, includes, includes-append, any, append, ap,
  ◌==◌, refl, [], ◌∷◌, Entries, includes-filter, includes-add_elements, add_elements, arith,
  or_else,
}
use jinbe.Rbac.{GroupDefinition, FlatRolesMap}
use jinbe.AuditDiff.{
  AuditChanges, added_in, removed_in, missing_in, flatten, pairs, diff_group_definition, diff_roles,
  diff_user_groups,
}
use jinbe.AuditDiff.Texts.{Formats}

-- The text is that of an entry: the key, a colon and one of its values.
abbrev pub has_entry : Entries (List String) → String → Bool
has_entry m x = any (λ (key, vs). any (λ v. append key (append ":" v) == x) vs) m

-- What is listed as added is what is there now and was not, and the removed what was there and is not.
pub record IsExact (c : AuditChanges) (before after : String → Bool) : Type 0 where
  pub exact_added : (x : String) → includes c.added x ≡ (not (before x) && after x)
  pub exact_removed : (x : String) → includes c.removed x ≡ (not (after x) && before x)

includes-pairs :
    (key : String) (vs : List String) (x : String)
    → includes (pairs key vs) x ≡ any (λ v. append key (append ":" v) == x) vs
includes-pairs key [] x = refl
includes-pairs key (v ∷ vs) x =
    ap (λ b. append key (append ":" v) == x || b) (includes-pairs key vs x)

includes-flatten : (m : Entries (List String)) (x : String) → includes (flatten m) x ≡ has_entry m x
unfolding flatten
includes-flatten [] x = refl
includes-flatten ((key, vs) ∷ m) x =
    includes-append (pairs key vs) (flatten m) x
    ∙ rw (includes-pairs key vs x, includes-flatten m x) refl

includes-added_in :
    (before after : List String) (x : String)
    → includes (added_in before after) x ≡ (not (includes before x) && includes after x)
includes-added_in before after x =
    includes-filter (missing_in before) (add_elements after []) x
    ∙ ground (arith, includes-add_elements after [] x)

includes-removed_in :
    (before after : List String) (x : String)
    → includes (removed_in before after) x ≡ (not (includes after x) && includes before x)
includes-removed_in before after x =
    includes-filter (missing_in after) (add_elements before []) x
    ∙ ground (arith, includes-add_elements before [] x)

added-flatten :
    (m n : Entries (List String)) (x : String)
    → includes (added_in (flatten m) (flatten n)) x ≡ (not (has_entry m x) && has_entry n x)
added-flatten m n x =
    includes-added_in (flatten m) (flatten n) x
    ∙ rw (includes-flatten m x, includes-flatten n x) refl

removed-flatten :
    (m n : Entries (List String)) (x : String)
    → includes (removed_in (flatten m) (flatten n)) x ≡ (not (has_entry n x) && has_entry m x)
removed-flatten m n x =
    includes-removed_in (flatten m) (flatten n) x
    ∙ rw (includes-flatten m x, includes-flatten n x) refl

module _ (t : Formats) where
  -- The changes that are recorded of a group and of roles are exact: they list as added the entries
  -- `key:value` of the definition after that the one before has not, and as removed those of the one
  -- before that the one after has not, whatever the key. Those of a user's groups are exact likewise.
  pub diffs-IsExact :
      (name : String) (before : Option GroupDefinition) (after : GroupDefinition)
      (old : Option FlatRolesMap) (new : FlatRolesMap) (groups groups' : List String)
      → IsExact
          (diff_group_definition t name before after)
          (has_entry (or_else before []))
          (has_entry after)
        × IsExact (diff_roles t name old new) (has_entry (or_else old [])) (has_entry new)
        × IsExact (diff_user_groups t name groups groups') (includes groups) (includes groups')
  unfolding diff_group_definition diff_roles diff_user_groups
  diffs-IsExact name before after old new groups groups' = (
    record {
      exact_added = added-flatten (or_else before []) after;
      exact_removed = removed-flatten (or_else before []) after;
    },
    record {
      exact_added = added-flatten (or_else old []) new;
      exact_removed = removed-flatten (or_else old []) new;
    },
    record {
      exact_added = includes-added_in groups groups';
      exact_removed = includes-removed_in groups groups';
    },
  )

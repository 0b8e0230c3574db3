-- ===== src/AuditDiff/Texts.antt =====
-- The texts of src/services/audit-diff.ts. Upper case, the digits of a number and the parser of URLs are
-- those of JavaScript.
use Prim.Native.Char.{code}
use jinbe.Prelude.{
  ℕ, String, if◌then◌else◌, same_number, Option, none, some, List, [], ◌∷◌, ◌++◌, is_empty, length,
  append, truthy, or_else,
}

pub record Formats : Type 0 where
  pub to_upper_case : String → String
  -- A to Z as a to z, as expressions with the flag `i` read them
  pub lower_ascii : String → String
  pub show_number : ℕ → String
  -- `new URL(s)` printed without its user name and password, unless it throws
  pub without_userinfo : String → Option String

-- `parts.join(separator)`
abbrev pub join_with : String → List String → String
join_with separator [] = ""
join_with separator (w ∷ []) = w
join_with separator (w ∷ x ∷ ws) = append w (append separator (join_with separator (x ∷ ws)))

-- what stands behind the last '@', if there is one
abbrev pub after_last_at : String → Option String
after_last_at String.[] = none
after_last_at (String.◌∷◌ c s) = elim (after_last_at s) [
  | some r ↦ some r
  | none ↦ if same_number (code c) b'@' then some s else none
]

module _ (t : Formats) where
  unfoldable pub strip_userinfo : Option String → String
  strip_userinfo url = elim (truthy url) [
    | none ↦ ""
    | some u ↦ or_else (t.without_userinfo u) (or_else (after_last_at u) u)
  ]

  -- one part of the summary
  abbrev pub change_count : String → List String → String → List String
  change_count sign changes word =
      if is_empty changes
      then []
      else append sign (append (t.show_number (length changes)) word) ∷ []

  unfoldable pub summarize : String → List String → List String → String
  summarize subject added removed =
      let parts = change_count "+" added " added" ++ change_count "-" removed " removed" in
      append subject (append " " (if is_empty parts then "unchanged" else join_with ", " parts))

-- ===== src/Prelude/Texts.antt =====
-- Texts of JavaScript: `trim` and `toLowerCase` as parameters, `split(' ')` and `join(' ')`, and the
-- reading of an absent or empty text as false.
use Prim.Native.Nat.{suc, ℕ, compare, Ordering}
use Prim.Native.Char.{Char, code}
use Prim.Native.String.{String}
use mathlib.Core.Bool.{◌&&◌, ◌||◌, Bool, true, false}
use mathlib.Core.Option.{Option, none, some}
use mathlib.Core.List.{List, [], ◌∷◌}
use text.Mathlib.Text.{◌==◌}
use jinbe.Prelude.Lists.{any}
use jinbe.Prelude.Tests.{leb, if◌then◌else◌}

pub record TextOps : Type 0 where
  pub trim : String → String
  pub to_lower_case : String → String

abbrev pub same_number : ℕ → ℕ → Bool
same_number a b = elim (compare a b) [ Ordering.eq ↦ true | _ ↦ false ]

abbrev pub cons_head : Char → List String → List String
cons_head c [] = String.◌∷◌ c String.[] ∷ []
cons_head c (w ∷ ws) = String.◌∷◌ c w ∷ ws

-- `s.split(' ')`
abbrev pub split : String → List String
split String.[] = String.[] ∷ []
split (String.◌∷◌ c s) =
    let rest = split s in if same_number (code c) b' ' then String.[] ∷ rest else cons_head c rest

-- `s + t`
abbrev pub append : String → String → String
append String.[] t = t
append (String.◌∷◌ c s) t = String.◌∷◌ c (append s t)

-- `ws.join(' ')`
abbrev pub join : List String → String
join [] = String.[]
join (w ∷ []) = w
join (w ∷ x ∷ ws) = append w (append " " (join (x ∷ ws)))

-- the text, unless it is absent or empty
abbrev pub truthy : Option String → Option String
truthy none = none
truthy (some s) = if s == "" then none else some s

-- `texts.filter(Boolean)`
abbrev pub present : List (Option String) → List String
present [] = []
present (o ∷ os) = let rest = present os in elim (truthy o) [ none ↦ rest | some s ↦ s ∷ rest ]

-- \s, which is also what `trim` takes away
abbrev pub is_white : ℕ → Bool
is_white c =
    (leb 9 c && leb c 13)
    || (leb 8192 c && leb c 8202)
    || any (same_number c) (32 ∷ 160 ∷ 5760 ∷ 8232 ∷ 8233 ∷ 8239 ∷ 8287 ∷ 12288 ∷ 65279 ∷ [])

-- \s*
abbrev pub skip_white : String → String
skip_white String.[] = String.[]
skip_white (String.◌∷◌ c s) =
    let rest = skip_white s in if is_white (code c) then rest else String.◌∷◌ c s

-- `s.trim() === ''`
abbrev pub is_blank : String → Bool
is_blank s = skip_white s == ""

-- `s.length`, for texts of the basic plane
abbrev pub text_length : String → ℕ
text_length String.[] = 0
text_length (String.◌∷◌ c s) = suc (text_length s)

-- `s.endsWith(p)`
abbrev pub ends_with : String → String → Bool
ends_with String.[] p = String.[] == p
ends_with (String.◌∷◌ c s) p = String.◌∷◌ c s == p || ends_with s p

-- ===== src/Scim/Filter.antt =====
-- `parseFilter` of src/services/scim.service.ts: its regular expression, character by character.
use Prim.Native.Char.{Char, code}
use jinbe.Prelude.{
  is_white, skip_white, append, ℕ, ◌+◌, String, ◌≡◌, ◌≢◌, refl, ap, ◌&&◌, if◌then◌else◌, leb,
  Option, none, some, Result, ok, err, same_number, arith,
}
use jinbe.Scim.{ScimError, scim_error}

pub data Attribute : Type 0 where
  user_name external_id : Attribute

-- \s+
abbrev pub some_white : String → Option String
some_white String.[] = none
some_white (String.◌∷◌ c s) = if is_white (code c) then some (skip_white s) else none

abbrev pub lower_code : ℕ → ℕ
lower_code c = if leb 65 c && leb c 90 then c + 32 else c

-- a word in any case; it is given in lower case
abbrev pub match_word : String → String → Option String
match_word String.[] s = some s
match_word (String.◌∷◌ a w) String.[] = none
match_word (String.◌∷◌ a w) (String.◌∷◌ c s) =
    let rest = match_word w s in if same_number (lower_code (code c)) (code a) then rest else none

abbrev pub cons_value : Char → Option (String × String) → Option (String × String)
cons_value c none = none
cons_value c (some (v, s)) = some (String.◌∷◌ c v, s)

-- [^"]*" and what follows
abbrev pub until_quote : String → Option (String × String)
until_quote String.[] = none
until_quote (String.◌∷◌ c s) =
    let rest = cons_value c (until_quote s) in
    if same_number (code c) b'"' then some (String.[], s) else rest

abbrev pub bind : Option String → (String → Option String) → Option String
bind none f = none
bind (some s) f = f s

-- \s+eq\s+"
abbrev pub match_operator : String → Option String
match_operator s =
    bind (some_white s) (λ a. bind (match_word "eq" a) (λ b. bind (some_white b) (match_word "\"")))

abbrev pub match_end : Attribute → Option (String × String) → Option (Attribute × String)
match_end a none = none
match_end a (some (v, s)) = elim (skip_white s) [ String.[] ↦ some (a, v) | String.◌∷◌ c t ↦ none ]

abbrev pub match_value : Attribute → Option String → Option (Attribute × String)
match_value a none = none
match_value a (some s) = elim (match_operator s) [
  | none ↦ none
  | some t ↦ match_end a (until_quote t)
]

-- the regular expression
abbrev pub match_filter : String → Option (Attribute × String)
match_filter s = elim (match_word "username" (skip_white s)) [
  | some t ↦ match_value user_name (some t)
  | none ↦ match_value external_id (match_word "externalid" (skip_white s))
]

abbrev pub as_filter : Option (Attribute × String) → Result ScimError (Option (Attribute × String))
as_filter none = err (scim_error 501 none)
as_filter (some p) = ok (some p)

parse_text : String → Result ScimError (Option (Attribute × String))
parse_text s = elim (skip_white s) [
  | String.[] ↦ ok none
  | String.◌∷◌ c t ↦ as_filter (match_filter s)
]

unfoldable pub parse_filter : Option String → Result ScimError (Option (Attribute × String))
unfolding parse_text
parse_filter none = ok none
parse_filter (some s) = parse_text s

-- what an identity provider sends
abbrev pub show_filter : Attribute → String → String
show_filter user_name v = append "userName eq \"" (append v "\"")
show_filter external_id v = append "externalId eq \"" (append v "\"")

abbrev pub LacksQuote : String → Type 0
LacksQuote String.[] = Unit
LacksQuote (String.◌∷◌ c s) = (code c ≢ b'"') × LacksQuote s

until_quote-append : (v : String) → LacksQuote v → until_quote (append v "\"") ≡ some (v, String.[])
until_quote-append String.[] h = refl
until_quote-append (String.◌∷◌ c v) (n, h) = ground (arith, until_quote-append v h)

-- A filter on either attribute, for a value without a quotation mark, is read as that filter.
pub parse_filter-show_filter :
    (a : Attribute) (v : String)
    → LacksQuote v
    → parse_filter (some (show_filter a v)) ≡ ok (some (a, v))
unfolding parse_filter
parse_filter-show_filter user_name v h =
    ap (λ o. as_filter (match_end user_name o)) (until_quote-append v h)
parse_filter-show_filter external_id v h =
    ap (λ o. as_filter (match_end external_id o)) (until_quote-append v h)

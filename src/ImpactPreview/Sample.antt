-- ===== src/ImpactPreview/Sample.antt =====
-- The sample of requests in src/services/impact-preview.service.ts: real ones from the audit stream, and
-- the routes of the affected services for the affected users.
use Prim.Native.Char.{code}
use text.Mathlib.Text.{starts_with}
use jinbe.Prelude.{
  ℕ, zero, suc, String, true, false, ◌||◌, ◌==◌, if◌then◌else◌, leb, same_number, Option, none,
  some, List, [], ◌∷◌, ◌++◌, map, or_else, includes, length, append, truthy, lookup,
}
use jinbe.Rbac.{RouteRule}
use jinbe.ImpactPreview.{OpaDataset}

pub record ImpactTuple : Type 0 where
  pub email : String
  pub action : String
  pub object : String

-- AUDIT_SAMPLE_LIMIT and TOTAL_SAMPLE_LIMIT
abbrev pub audit_sample_limit : ℕ
audit_sample_limit = 300

abbrev pub total_sample_limit : ℕ
total_sample_limit = 600

abbrev pub tuple_key : ImpactTuple → String
tuple_key t = append t.email (append "|" (append t.action (append "|" t.object)))

abbrev pub tuple_keys : List ImpactTuple → List String
tuple_keys [] = []
tuple_keys (t ∷ ts) = tuple_key t ∷ tuple_keys ts

-- the list with the tuple, unless its key is in it or the list is full
unfoldable pub push : ℕ → ImpactTuple → List ImpactTuple → List ImpactTuple
push limit t ts =
    if includes (tuple_keys ts) (tuple_key t) || leb limit (length ts) then ts else ts ++ t ∷ []

-- the part of an audit event that the sample reads
pub record AuditRow : Type 0 where
  pub who : Option String
  pub method : Option String
  pub path : Option String

-- `path.split('?')[0]`
abbrev pub before_query : String → String
before_query String.[] = String.[]
before_query (String.◌∷◌ c s) =
    if same_number (code c) b'?' then String.[] else String.◌∷◌ c (before_query s)

-- `/:any\*/g` with 'probe'; the number counts what is left of a match
abbrev pub replace_any : ℕ → String → String
replace_any n String.[] = String.[]
replace_any (suc n) (String.◌∷◌ c s) = replace_any n s
replace_any zero (String.◌∷◌ c s) = elim (starts_with (String.◌∷◌ c s) ":any*") [
  | true ↦ append "probe" (replace_any 4 s)
  | false ↦ String.◌∷◌ c (replace_any zero s)
]

abbrev pub cons_segment : String → List String → List String
cons_segment c [] = c ∷ []
cons_segment c (w ∷ ws) = append c w ∷ ws

-- `s.split('/')`
abbrev pub segments : String → List String
segments String.[] = "" ∷ []
segments (String.◌∷◌ c s) =
    let rest = segments s in
    if same_number (code c) b'/' then "" ∷ rest else cons_segment (String.◌∷◌ c String.[]) rest

abbrev pub join_segments : List String → String
join_segments [] = ""
join_segments (w ∷ []) = w
join_segments (w ∷ x ∷ ws) = append w (append "/" (join_segments (x ∷ ws)))

abbrev pub probe_segment : String → String
probe_segment seg = if starts_with seg ":" then "probe" else seg

-- a concrete path of a route
unfoldable pub probe_path : String → String
probe_path path = join_segments (map probe_segment (segments (replace_any zero path)))

-- `!e.who || e.who === 'anon' || !e.method || !e.path` has none
abbrev pub audit_tuple : AuditRow → Option ImpactTuple
audit_tuple row = elim (truthy row.who) [
  | none ↦ none
  | some who ↦ if who == "anon" then none else elim (truthy row.method) [
    | none ↦ none
    | some method ↦ elim (truthy row.path) [
      | none ↦ none
      | some path ↦ some (record { email = who; action = method; object = before_query path })
    ]
  ]
]

-- up to `left` new tuples of the audit stream
unfoldable pub push_audit : ℕ → ℕ → List AuditRow → List ImpactTuple → List ImpactTuple
push_audit limit left [] ts = ts
push_audit limit zero (row ∷ rows) ts = elim (audit_tuple row) [
  | none ↦ push_audit limit zero rows ts
  | some t ↦ ts
]
push_audit limit (suc n) (row ∷ rows) ts = elim (audit_tuple row) [
  | none ↦ push_audit limit (suc n) rows ts
  | some t ↦ elim (same_number (length (push limit t ts)) (length ts)) [
    | true ↦ push_audit limit (suc n) rows (push limit t ts)
    | false ↦ push_audit limit n rows (push limit t ts)
  ]
]

unfoldable pub push_users : ℕ → RouteRule → List String → List ImpactTuple → List ImpactTuple
push_users limit r [] ts = ts
push_users limit r (email ∷ users) ts =
    push_users limit r users
      (push limit (record { email = email; action = r.method; object = probe_path r.path }) ts)

unfoldable pub push_rules : ℕ → List String → List RouteRule → List ImpactTuple → List ImpactTuple
push_rules limit users [] ts = ts
push_rules limit users (r ∷ rules) ts = push_rules limit users rules (push_users limit r users ts)

module _ (current next : OpaDataset) where
  abbrev pub rules_of : String → List RouteRule
  rules_of svc = or_else (lookup svc current.route_map) [] ++ or_else (lookup svc next.route_map) []

  unfoldable pub push_services : ℕ → List String → List String → List ImpactTuple → List ImpactTuple
  push_services limit users [] ts = ts
  push_services limit users (svc ∷ services) ts =
      push_services limit users services (push_rules limit users (rules_of svc) ts)

  -- `sampleTuples`; the audit stream may be unavailable
  unfoldable pub sample_tuples :
      Option (List AuditRow) → List String → List String → List ImpactTuple
  sample_tuples rows users services =
      push_services total_sample_limit users services
        (push_audit total_sample_limit audit_sample_limit (or_else rows []) [])

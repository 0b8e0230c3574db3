-- ===== src/ImpactPreview/Exact.antt =====
-- What a preview of src/services/impact-preview.service.ts says of its sample.
use jinbe.Prelude.{
  ℕ, String, ◌≡◌, refl, ap, ◌∙◌, inl, inr, Bool, true, false, not, ◌&&◌, ◌||◌, ◌==◌, eq_iff,
  eq_refl, if◌then◌else◌, leb, same_number, Bool-cases, Option, some, List, [], ◌∷◌, ◌++◌, map,
  or_else, includes, is_empty, filter, length, Entries, lookup, insert, lookup-insert, arith,
}
use jinbe.ImpactPreview.{OpaDataset, ProposedChange, Reads, build_current_dataset, merge_proposed}
use jinbe.ImpactPreview.Datasets.{
  IsRead, IsChanged, build_current_dataset-IsRead, merge_proposed-IsChanged,
}
use jinbe.ImpactPreview.Sample.{ImpactTuple, AuditRow, tuple_key, tuple_keys, push, sample_tuples}
use jinbe.ImpactPreview.Pushes.{push_audit-keeps, push_services-keeps}
use jinbe.ImpactPreview.Preview.{
  Override, with_bindings, with_roles, with_route_map, with_org_service_map, with_org_admin_map,
  overrides, ImpactFlip, Comparison, ImpactPreviewResult, flip_of, no_flips, compare_one,
  compare_all, verdicts, verdict_in, evaluate, compared, sample_of, preview,
}

-- No two tuples have the same key.
abbrev pub AreDistinct : List ImpactTuple → Type 0
AreDistinct [] = Unit
AreDistinct (t ∷ ts) = (includes (tuple_keys ts) (tuple_key t) ≡ false) × AreDistinct ts

pub includes-tuple_keys-append :
    (ts : List ImpactTuple) (t : ImpactTuple) (k : String)
    → includes (tuple_keys (ts ++ t ∷ [])) k ≡ (includes (tuple_keys ts) k || tuple_key t == k)
includes-tuple_keys-append [] t k = ground arith
includes-tuple_keys-append (x ∷ ts) t k = ground (arith, includes-tuple_keys-append ts t k)

AreDistinct-append :
    (ts : List ImpactTuple) (t : ImpactTuple)
    → includes (tuple_keys ts) (tuple_key t) ≡ false
    → AreDistinct ts
    → AreDistinct (ts ++ t ∷ [])
AreDistinct-append [] t new d = (refl, tt)
AreDistinct-append (x ∷ ts) t new (other, d) = (
  includes-tuple_keys-append ts t (tuple_key x)
      ∙ ground (arith, eq_iff (tuple_key x) (tuple_key t), eq_iff (tuple_key t) (tuple_key x)),
  AreDistinct-append ts t (ground arith) d,
)

push-AreDistinct :
    (limit : ℕ) (t : ImpactTuple) (ts : List ImpactTuple)
    → AreDistinct ts
    → AreDistinct (push limit t ts)
unfolding push
push-AreDistinct limit t ts d = elim (Bool-cases (includes (tuple_keys ts) (tuple_key t))) [
  | inl e ↦ rw e d
  | inr e ↦ rw e (elim (Bool-cases (leb limit (length ts))) [
    | inl full ↦ rw full d
    | inr free ↦ rw free (AreDistinct-append ts t e d)
  ])
]

sample_tuples-AreDistinct :
    (current next : OpaDataset) (rows : Option (List AuditRow)) (users services : List String)
    → AreDistinct (sample_tuples current next rows users services)
unfolding sample_tuples
sample_tuples-AreDistinct current next rows users services =
    push_services-keeps 600 AreDistinct (push-AreDistinct 600) current next users services _
      (push_audit-keeps 600 AreDistinct (push-AreDistinct 600) 300 (or_else rows []) [] tt)

-- the rows of an OPA that decides by `f`
abbrev pub rows_of : (ImpactTuple → Bool) → List ImpactTuple → Entries Bool
rows_of f [] = []
rows_of f (t ∷ ts) = (tuple_key t, f t) ∷ rows_of f ts

lookup-verdicts :
    (f : ImpactTuple → Bool) (ts : List ImpactTuple) (m : Entries Bool) (k : String)
    → includes (tuple_keys ts) k ≡ false
    → lookup k (verdicts (rows_of f ts) m) ≡ lookup k m
unfolding verdicts
lookup-verdicts f [] m k h = refl
lookup-verdicts f (t ∷ ts) m k h =
    lookup-verdicts f ts _ k (ground arith) ∙ lookup-insert (tuple_key t) k (f t) m ∙ ground arith

map-verdict_in :
    (f : ImpactTuple → Bool) (ts : List ImpactTuple) (m : Entries Bool)
    → AreDistinct ts
    → map (verdict_in (verdicts (rows_of f ts) m)) ts ≡ map f ts
unfolding verdicts
map-verdict_in f [] m d = refl
map-verdict_in f (t ∷ ts) m (new, d) =
    let table : Entries Bool = insert (tuple_key t) (f t) m in
    let own : lookup (tuple_key t) table ≡ some (f t) =
      lookup-insert (tuple_key t) (tuple_key t) (f t) m ∙ rw (eq_refl (tuple_key t)) refl in
    let found : lookup (tuple_key t) (verdicts (rows_of f ts) table) ≡ some (f t) =
      lookup-verdicts f ts table (tuple_key t) new ∙ own in
    let first : verdict_in (verdicts (rows_of f ts) table) t ≡ f t =
      ap (λ o. or_else o false) found in
    cc (map-verdict_in f ts (insert (tuple_key t) (f t) m) d)

length-rows_of :
    (f : ImpactTuple → Bool) (ts : List ImpactTuple)
    → same_number (length (rows_of f ts)) (length ts) ≡ true
length-rows_of f [] = refl
length-rows_of f (t ∷ ts) = ground (arith, length-rows_of f ts)

-- the data that OPA decides by where a query overrides documents of its own
abbrev override_one : Override → OpaDataset → OpaDataset
override_one (with_bindings members groups orgs) ds = record ds {
  group_membership = members;
  groups = groups;
  user_organizations = orgs;
}
override_one (with_roles roles) ds = record ds { roles = roles }
override_one (with_route_map routes) ds = record ds { route_map = routes }
override_one (with_org_service_map m) ds = record ds { org_service_map = m }
override_one (with_org_admin_map m) ds = record ds { org_admin_map = m }

abbrev pub data_with : List Override → OpaDataset → OpaDataset
data_with [] ds = ds
data_with (o ∷ os) ds = data_with os (override_one o ds)

-- the overrides leave nothing of the data that OPA has
data_with-overrides : (ds live : OpaDataset) → data_with (overrides ds) live ≡ ds
data_with-overrides ds live = refl

evaluate-rows_of :
    (query : List Override → List ImpactTuple → Option (Entries Bool)) (f : ImpactTuple → Bool)
    (ds : OpaDataset) (ts : List ImpactTuple)
    → AreDistinct ts
    → query (overrides ds) ts ≡ some (rows_of f ts)
    → evaluate query ts ds ≡ some (map f ts)
unfolding evaluate
evaluate-rows_of query f ds ts d h =
    rw h (rw (length-rows_of f ts) (ap some (map-verdict_in f ts [] d)))

-- the flips of a sample, by the decisions before and after
abbrev pub flips : Bool → Bool → (ImpactTuple → Bool) → List ImpactTuple → List ImpactFlip
flips b a test [] = []
flips b a test (t ∷ ts) =
    let rest = flips b a test ts in if test t then flip_of t b a ∷ rest else rest

abbrev pub expected : (ImpactTuple → Bool) → (ImpactTuple → Bool) → List ImpactTuple → Comparison
expected f g ts = record {
  losses = flips true false (λ t. f t && not (g t)) ts;
  gains = flips false true (λ t. not (f t) && g t) ts;
  unchanged = length (filter (λ t. (f t && g t) || (not (f t) && not (g t))) ts);
}

compare_all-expected :
    (f g : ImpactTuple → Bool) (ts : List ImpactTuple)
    → compare_all ts (map f ts) (map g ts) ≡ expected f g ts
unfolding compare_all
compare_all-expected f g [] = refl
compare_all-expected f g (t ∷ ts) = elim (Bool-cases (f t)) [
  | inl e ↦ elim (Bool-cases (g t)) [
    | inl e' ↦ rw (e, e') (ap (compare_one t true true) (compare_all-expected f g ts))
    | inr e' ↦ rw (e, e') (ap (compare_one t true false) (compare_all-expected f g ts))
  ]
  | inr e ↦ elim (Bool-cases (g t)) [
    | inl e' ↦ rw (e, e') (ap (compare_one t false true) (compare_all-expected f g ts))
    | inr e' ↦ rw (e, e') (ap (compare_one t false false) (compare_all-expected f g ts))
  ]
]

-- the answer that is right, where OPA decides by `f` before the change and by `g` after it
abbrev pub right_preview :
    (ImpactTuple → Bool) → (ImpactTuple → Bool) → List ImpactTuple → ImpactPreviewResult
right_preview f g ts = record { changes = expected f g ts; total = length ts; evaluated = true }

compared-right :
    (f g : ImpactTuple → Bool) (ts : List ImpactTuple) (before after : Option (List Bool))
    → before ≡ some (map f ts)
    → after ≡ some (map g ts)
    → (if is_empty ts
        then record { changes = no_flips; total = 0; evaluated = true }
        else compared ts before after)
      ≡ right_preview f g ts
compared-right f g [] before after b a = refl
compared-right f g (t ∷ ts) before after b a =
    rw (b, a)
      (ap (λ c. record { changes = c; total = length (t ∷ ts); evaluated = true })
        (compare_all-expected f g (t ∷ ts)))

-- Where OPA decides each request of a query by its data with the documents that the query overrides, a
-- preview is evaluated, and it compares two sets of data. The first has what was read, and no
-- organisation of any user; the second has at each key of the groups, roles, routes and members what is
-- proposed there, and else what the first has. The losses are the requests of the sample that are
-- allowed by the first and not by the second, in order, the gains are those that are allowed only by
-- the second, and all others are counted as unchanged, whatever data OPA has of its own.
pub preview-right :
    (query : List Override → List ImpactTuple → Option (Entries Bool)) (live : OpaDataset)
    (allow : OpaDataset → ImpactTuple → Bool) (reads : Reads) (rows : Option (List AuditRow))
    (p : ProposedChange)
    → ((os : List Override) (ts : List ImpactTuple)
        → query os ts ≡ some (rows_of (allow (data_with os live)) ts))
    → (current : OpaDataset) × (next : OpaDataset) × IsRead reads current
      × IsChanged current p next
      × (preview query reads rows p
          ≡ right_preview (allow current) (allow next) (sample_of rows current p))
unfolding preview
preview-right query live allow reads rows p law =
    let current = build_current_dataset reads in
    let next = merge_proposed current p in
    let ts = sample_of rows current p in
    let d : AreDistinct ts = sample_tuples-AreDistinct current next rows _ _ in
    (
      current,
      next,
      build_current_dataset-IsRead reads,
      merge_proposed-IsChanged current p,
      compared-right (allow current) (allow next) ts _ _
          (evaluate-rows_of query (allow current) current ts d (law (overrides current) ts))
          (evaluate-rows_of query (allow next) next ts d (law (overrides next) ts)),
    )

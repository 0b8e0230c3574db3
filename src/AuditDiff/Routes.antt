-- ===== src/AuditDiff/Routes.antt =====
-- When the audit trail flags a change of routes as an opening to the public: diffRouteMap of
-- src/services/audit-diff.ts.
use jinbe.Prelude.{
  String, ◌≡◌, ◌≢◌, ◌↔◌, refl, ap, subst, ◌∙◌, inl, inr, Bool, true, false, ◌==◌, eq_iff, eq_refl,
  Option, none, some, List, [], ◌∷◌, Entries, lookup, insert, lookup-insert, arith, or_else,
  Bool-cases,
}
use mathlib.Core.Option.{some-injective}
use jinbe.Rbac.{RouteRule}
use jinbe.AuditDiff.{
  opened_to_public, flag_if, route_key, route_table, opens, opened, diff_route_map,
}
use jinbe.AuditDiff.Texts.{Formats}

-- Each key stands in the table once.
abbrev AreKeyed : Entries String → Type 0
AreKeyed [] = Unit
AreKeyed ((k, v) ∷ m) = (lookup k m ≡ none) × AreKeyed m

insert-AreKeyed : (k v : String) (m : Entries String) → AreKeyed m → AreKeyed (insert k v m)
insert-AreKeyed k v [] h = (refl, tt)
insert-AreKeyed k v ((j, w) ∷ m) (absent, h) = elim (Bool-cases (j == k)) [
  | inl e ↦ rw e (subst (λ x. lookup x m ≡ none) ((eq_iff j k).0 e) absent, h)
  | inr e ↦
      rw e (lookup-insert k j v m ∙ ground (arith, eq_iff j k, eq_iff k j), insert-AreKeyed k v m h)
]

module _ (t : Formats) where
  opened-at :
      (before after : Entries String) (key perm : String)
      → lookup key after ≡ some perm
      → opens t perm (lookup key before) ≡ true
      → opened t before after ≡ true
  unfolding opened
  opened-at before [] key perm h e = cc
  opened-at before ((k, p) ∷ after) key perm h e = elim (Bool-cases (k == key)) [
    | inl here ↦
        let same : p ≡ perm = some-injective p perm (rw here at h) in
        rw (same, (eq_iff k key).0 here, e) refl
    | inr other ↦ ground (arith, opened-at before after key perm (rw other at h) e)
  ]

  opened-where :
      (before after : Entries String)
      → AreKeyed after
      → opened t before after ≡ true
      → (key : String) × (perm : String) × (lookup key after ≡ some perm)
        × (opens t perm (lookup key before) ≡ true)
  unfolding opened
  opened-where before [] h e = cc
  opened-where before ((k, p) ∷ after) (absent, h) e =
      elim (Bool-cases (opens t p (lookup k before))) [
        | inl here ↦ (k, p, rw (eq_refl k) refl, here)
        | inr later ↦
            let (key, perm, there, opening) = opened-where before after h (rw later at e) in
            (
              key,
              perm,
              (elim (Bool-cases (k == key)) [
                | inl same ↦
                    let gone : lookup key after ≡ none =
                      subst (λ x. lookup x after ≡ none) ((eq_iff k key).0 same) absent in
                    cc
                | inr other ↦ rw other there
              ]),
              opening,
            )
      ]

  opens_iff :
      (perm : String) (previous : Option String)
      → (opens t perm previous ≡ true) ↔ ((perm ≡ "") × (previous ≢ some ""))
  opens_iff perm none = ((λ e. ((eq_iff perm "").0 e, λ n. cc)), λ (e, n). (eq_iff perm "").1 e)
  opens_iff perm (some previous) = (
    (λ e.
        let closed : (previous == "") ≡ false = ground arith in
        (
          (eq_iff perm "").0 (ground arith),
          λ n.
              let old : (previous == "") ≡ true =
                (eq_iff previous "").1 (some-injective previous "" n) in
              cc,
        )),
    λ (e, n).
        let closed : (previous == "") ≡ false = elim (Bool-cases (previous == "")) [
          | inl open_before ↦ absurd (n (ap some ((eq_iff previous "").0 open_before)))
          | inr shut ↦ shut
        ] in
        ground (arith, eq_iff previous perm, eq_iff perm "", eq_iff previous ""),
  )

  flag_if-raised : (b : Bool) → flag_if b opened_to_public ≡ opened_to_public ∷ [] → b ≡ true
  flag_if-raised true h = refl
  flag_if-raised false h = cc

  route_table-AreKeyed :
      (rules : List RouteRule) (m : Entries String) → AreKeyed m → AreKeyed (route_table t rules m)
  unfolding route_table
  route_table-AreKeyed [] m h = h
  route_table-AreKeyed (r ∷ rules) m h =
      route_table-AreKeyed rules _ (insert-AreKeyed (route_key t r) (or_else r.permission "") m h)

  -- A change of routes is flagged exactly if there is a route that needs no permission afterwards and
  -- that did not exist before or needed one.
  pub diff_route_map-flags :
      (service : String) (before after : List RouteRule)
      → ((diff_route_map t service before after).flags ≡ opened_to_public ∷ []) ↔ (
          (key : String) × (lookup key (route_table t after []) ≡ some "")
          × (lookup key (route_table t before []) ≢ some ""))
  unfolding diff_route_map
  diff_route_map-flags service before after =
      let old = route_table t before [] in
      let new = route_table t after [] in
      (
        (λ h.
            let (key, perm, there, opening) =
              opened-where old new (route_table-AreKeyed after [] tt) (flag_if-raised _ h) in
            let (e, n) = (opens_iff perm (lookup key old)).0 opening in
            (key, there ∙ ap some e, n)),
        λ (key, there, n).
            rw (opened-at old new key "" there ((opens_iff "" (lookup key old)).1 (refl, n))) refl,
      )

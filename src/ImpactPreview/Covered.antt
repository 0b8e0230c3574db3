-- ===== src/ImpactPreview/Covered.antt =====
-- Whom a preview of src/services/impact-preview.service.ts looks at when the definition of a group
-- changes.
use jinbe.Prelude.{
  ℕ, String, ◌≡◌, sym, ap, subst, ◌∙◌, inl, inr, true, false, ◌||◌, ◌==◌, eq_iff, eq_refl, leb,
  Bool-cases, Option, some, List, [], ◌∷◌, ◌++◌, or_else, includes, length, lookup, keys, arith,
}
use jinbe.Rbac.{GroupDefinition, RouteRule}
use jinbe.ImpactPreview.{
  OpaDataset, ProposedChange, is_unchanged, affected_users, affected_services, merge_proposed,
}
use jinbe.ImpactPreview.Sample.{
  ImpactTuple, AuditRow, tuple_key, tuple_keys, push, push_audit, push_users, push_rules,
  push_services, rules_of, sample_tuples, probe_path,
}
use jinbe.ImpactPreview.Pushes.{push_users-keeps, push_rules-keeps, push_services-keeps}
use jinbe.ImpactPreview.Affected.{affected_users-includes, affected_services-includes}
use jinbe.ImpactPreview.Preview.{sample_of}
use jinbe.ImpactPreview.Exact.{includes-tuple_keys-append}

-- the request of a user at a route
abbrev pub probe : RouteRule → String → ImpactTuple
probe r email = record { email = email; action = r.method; object = probe_path r.path }

-- The key is in the list, or the list is full.
abbrev Has : ℕ → String → List ImpactTuple → Type 0
Has limit k ts = (includes (tuple_keys ts) k || leb limit (length ts)) ≡ true

module _ (limit : ℕ) where
  push-Has :
      (k : String) (t : ImpactTuple) (ts : List ImpactTuple)
      → Has limit k ts
      → Has limit k (push limit t ts)
  unfolding push
  push-Has k t ts h =
      elim (Bool-cases (includes (tuple_keys ts) (tuple_key t) || leb limit (length ts))) [
        | inl e ↦ rw e h
        | inr e ↦ rw e (rw (includes-tuple_keys-append ts t k) (ground arith))
      ]

  push-Has_self :
      (t : ImpactTuple) (ts : List ImpactTuple) → Has limit (tuple_key t) (push limit t ts)
  unfolding push
  push-Has_self t ts =
      elim (Bool-cases (includes (tuple_keys ts) (tuple_key t) || leb limit (length ts))) [
        | inl e ↦ rw e e
        | inr e ↦ rw e (
            rw (includes-tuple_keys-append ts t (tuple_key t), eq_refl (tuple_key t))
              (ground arith))
      ]

  push_users-Has :
      (r : RouteRule) (email : String) (users : List String) (ts : List ImpactTuple)
      → includes users email ≡ true
      → Has limit (tuple_key (probe r email)) (push_users limit r users ts)
  unfolding push_users
  push_users-Has r email [] ts h = cc
  push_users-Has r email (u ∷ users) ts h = elim (Bool-cases (u == email)) [
    | inl e ↦
        push_users-keeps limit (Has limit (tuple_key (probe r email)))
          (push-Has (tuple_key (probe r email))) r users _
          (subst (λ x. Has limit (tuple_key (probe r x)) (push limit (probe r u) ts))
            ((eq_iff u email).0 e) (push-Has_self (probe r u) ts))
    | inr e ↦ push_users-Has r email users _ (rw e at h)
  ]

  push_rules-Has :
      (r : RouteRule) (email : String) (users : List String) (before after : List RouteRule)
      (ts : List ImpactTuple)
      → includes users email ≡ true
      → Has limit (tuple_key (probe r email)) (push_rules limit users (before ++ r ∷ after) ts)
  unfolding push_rules
  push_rules-Has r email users [] after ts h =
      push_rules-keeps limit (Has limit (tuple_key (probe r email)))
        (push-Has (tuple_key (probe r email))) users after _ (push_users-Has r email users ts h)
  push_rules-Has r email users (b ∷ before) after ts h =
      push_rules-Has r email users before after _ h

module _ (current next : OpaDataset) (limit : ℕ) where
  push_services-Has :
      (r : RouteRule) (email svc : String) (users services : List String)
      (before after : List RouteRule) (ts : List ImpactTuple)
      → includes users email ≡ true
      → includes services svc ≡ true
      → rules_of current next svc ≡ before ++ r ∷ after
      → Has limit (tuple_key (probe r email)) (push_services current next limit users services ts)
  unfolding push_services
  push_services-Has r email svc users [] before after ts u s e = cc
  push_services-Has r email svc users (x ∷ services) before after ts u s e =
      elim (Bool-cases (x == svc)) [
        | inl here ↦
            push_services-keeps limit (Has limit (tuple_key (probe r email)))
              (push-Has limit (tuple_key (probe r email))) current next users services _
              (subst
                (λ rules. Has limit (tuple_key (probe r email)) (push_rules limit users rules ts))
                (sym e ∙ ap (rules_of current next) (sym ((eq_iff x svc).0 here)))
                (push_rules-Has limit r email users before after ts u))
        | inr other ↦
            push_services-Has r email svc users services before after _ u (rw other at s) e
      ]

-- Where a change proposes a new definition of a group, the sample has the request of each member of the
-- group at each route, of now or with the change, of each service but the global one that the new
-- definition binds, unless the sample is full.
pub sample_of-covers :
    (current : OpaDataset) (p : ProposedChange) (rows : Option (List AuditRow))
    (g email svc : String) (def : GroupDefinition) (gs : List String) (r : RouteRule)
    (before after : List RouteRule)
    → lookup g p.groups ≡ some def
    → is_unchanged (lookup g current.groups) def ≡ false
    → lookup email current.group_membership ≡ some gs
    → includes gs g ≡ true
    → includes (keys def) svc ≡ true
    → (svc == "global") ≡ false
    → rules_of current (merge_proposed current p) svc ≡ before ++ r ∷ after
    → leb 600 (length (sample_of rows current p)) ≡ false
    → includes (tuple_keys (sample_of rows current p)) (tuple_key (probe r email)) ≡ true
unfolding sample_tuples
sample_of-covers current p rows g email svc def gs r before after proposed changed member listed
      bound other rules free =
    let has : Has 600 (tuple_key (probe r email)) (sample_of rows current p) =
      push_services-Has current (merge_proposed current p) 600 r email svc
        (affected_users current p) (affected_services current p) before after
        (push_audit 600 300 (or_else rows []) [])
        (affected_users-includes current p g email def gs proposed changed member listed)
        (affected_services-includes current p g svc def proposed changed bound other) rules in
    ground arith

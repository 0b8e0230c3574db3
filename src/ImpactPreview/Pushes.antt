-- ===== src/ImpactPreview/Pushes.antt =====
-- What every push keeps, the whole sample of src/services/impact-preview.service.ts keeps.
use jinbe.Prelude.{
  ℕ, zero, suc, String, inl, inr, Bool-cases, Option-cases, List, [], ◌∷◌, length, same_number,
}
use jinbe.Rbac.{RouteRule}
use jinbe.ImpactPreview.{OpaDataset}
use jinbe.ImpactPreview.Sample.{
  ImpactTuple, AuditRow, audit_tuple, push, push_audit, push_users, push_rules, rules_of,
  push_services, probe_path,
}

module _ (limit : ℕ) (P : List ImpactTuple → Type 0)
    (keeps : (t : ImpactTuple) (ts : List ImpactTuple) → P ts → P (push limit t ts)) where
  pub push_audit-keeps :
      (left : ℕ) (rows : List AuditRow) (ts : List ImpactTuple)
      → P ts
      → P (push_audit limit left rows ts)
  unfolding push_audit
  push_audit-keeps left [] ts h = h
  push_audit-keeps zero (row ∷ rows) ts h = elim (Option-cases (audit_tuple row)) [
    | inl skipped ↦ rw (skipped, push_audit) (push_audit-keeps zero rows ts h)
    | inr (t, taken) ↦ rw (taken, push_audit) h
  ]
  push_audit-keeps (suc n) (row ∷ rows) ts h = elim (Option-cases (audit_tuple row)) [
    | inl skipped ↦ rw (skipped, push_audit) (push_audit-keeps (suc n) rows ts h)
    | inr (t, taken) ↦ elim (Bool-cases (same_number (length (push limit t ts)) (length ts))) [
      | inl old ↦
          rw (taken, push_audit)
            (rw (old, push_audit) (push_audit-keeps (suc n) rows (push limit t ts) (keeps t ts h)))
      | inr new ↦
          rw (taken, push_audit)
            (rw (new, push_audit) (push_audit-keeps n rows (push limit t ts) (keeps t ts h)))
    ]
  ]

  pub push_users-keeps :
      (r : RouteRule) (users : List String) (ts : List ImpactTuple)
      → P ts
      → P (push_users limit r users ts)
  unfolding push_users
  push_users-keeps r [] ts h = h
  push_users-keeps r (email ∷ users) ts h =
      push_users-keeps r users _
        (keeps (record { email = email; action = r.method; object = probe_path r.path }) ts h)

  pub push_rules-keeps :
      (users : List String) (rules : List RouteRule) (ts : List ImpactTuple)
      → P ts
      → P (push_rules limit users rules ts)
  unfolding push_rules
  push_rules-keeps users [] ts h = h
  push_rules-keeps users (r ∷ rules) ts h =
      push_rules-keeps users rules _ (push_users-keeps r users ts h)

  pub push_services-keeps :
      (current next : OpaDataset) (users services : List String) (ts : List ImpactTuple)
      → P ts
      → P (push_services current next limit users services ts)
  unfolding push_services
  push_services-keeps current next users [] ts h = h
  push_services-keeps current next users (svc ∷ services) ts h =
      push_services-keeps current next users services _
        (push_rules-keeps users (rules_of current next svc) ts h)

-- ===== src/ImpactPreview/Affected.antt =====
-- The users and the services that a change of a group affects, in
-- src/services/impact-preview.service.ts.
use jinbe.Prelude.{
  String, ◌≡◌, refl, sym, ap, subst, ◌∙◌, inl, inr, Bool, true, false, not, ◌&&◌, ◌||◌, ◌==◌,
  eq_iff, eq_refl, Bool-cases, some, List, [], ◌∷◌, or_else, includes, includes-filter,
  includes-add_element, includes-add_elements, add_elements, any, is_empty, Entries, lookup, keys,
  arith,
}
use mathlib.Core.Option.{some-injective}
use jinbe.Rbac.{GroupDefinition}
use jinbe.ImpactPreview.{
  OpaDataset, ProposedChange, is_unchanged, changed_groups, services_of_groups, members,
  services_of_names, services_of_members, affected_users, affected_services,
}

-- What is in a set stays in it.
add_elements-includes :
    (ss set : List String) (s : String)
    → includes set s ≡ true
    → includes (add_elements ss set) s ≡ true
add_elements-includes ss set s h = includes-add_elements ss set s ∙ rw h refl

any-includes :
    (gs names : List String) (g : String)
    → includes gs g ≡ true
    → includes names g ≡ true
    → any (includes names) gs ≡ true
any-includes [] names g h k = cc
any-includes (x ∷ gs) names g h k = elim (Bool-cases (x == g)) [
  | inl e ↦ rw (subst (λ y. includes names y ≡ true) (sym ((eq_iff x g).0 e)) k) refl
  | inr e ↦ rw (any-includes gs names g (rw e at h) k) (ground arith)
]

module _ (current : OpaDataset) where
  changed_groups-includes :
      (groups : Entries GroupDefinition) (g : String) (def : GroupDefinition)
      → lookup g groups ≡ some def
      → is_unchanged (lookup g current.groups) def ≡ false
      → includes (changed_groups current groups) g ≡ true
  unfolding changed_groups
  changed_groups-includes [] g def h c = cc
  changed_groups-includes ((j, d) ∷ groups) g def h c = elim (Bool-cases (j == g)) [
    | inl e ↦
        let same : d ≡ def = some-injective d def (rw e at h) in
        rw ((eq_iff j g).0 e, same, c) (rw (eq_refl g) refl)
    | inr e ↦
        let rest : includes (changed_groups current groups) g ≡ true =
          changed_groups-includes groups g def (rw e at h) c in
        elim (Bool-cases (is_unchanged (lookup j current.groups) d)) [
          | inl old ↦ rw old rest
          | inr new ↦ rw (new, e) rest
        ]
  ]

  members-includes_set :
      (test : List String → Bool) (es : Entries (List String)) (set : List String) (email : String)
      → includes set email ≡ true
      → includes (members current test es set) email ≡ true
  unfolding members
  members-includes_set test [] set email h = h
  members-includes_set test ((e, gs) ∷ es) set email h =
      members-includes_set test es _ email (ground (arith, includes-add_element e set email))

  members-includes :
      (test : List String → Bool) (es : Entries (List String)) (set : List String) (email : String)
      (gs : List String)
      → lookup email es ≡ some gs
      → test gs ≡ true
      → includes (members current test es set) email ≡ true
  unfolding members
  members-includes test [] set email gs h k = cc
  members-includes test ((e, hs) ∷ es) set email gs h k = elim (Bool-cases (e == email)) [
    | inl same ↦
        let groups : hs ≡ gs = some-injective hs gs (rw same at h) in
        members-includes_set test es _ email
          (rw (ap test groups ∙ k) (includes-add_element e set email ∙ ground arith))
    | inr other ↦ members-includes test es _ email gs (rw other at h) k
  ]

  pub affected_users-includes :
      (p : ProposedChange) (g email : String) (def : GroupDefinition) (gs : List String)
      → lookup g p.groups ≡ some def
      → is_unchanged (lookup g current.groups) def ≡ false
      → lookup email current.group_membership ≡ some gs
      → includes gs g ≡ true
      → includes (affected_users current p) email ≡ true
  unfolding affected_users
  affected_users-includes p g email def gs proposed changed member listed =
      let direct =
        members-includes (any (includes (changed_groups current p.groups))) current.group_membership
          (add_elements (keys p.group_membership) []) email gs member
          (any-includes gs (changed_groups current p.groups) g listed
            (changed_groups-includes p.groups g def proposed changed)) in
      elim (Bool-cases (is_empty (keys p.roles) && is_empty (keys p.route_maps))) [
        | inl e ↦ rw e direct
        | inr e ↦ rw e (members-includes_set _ current.group_membership _ email direct)
      ]

  services_of_groups-includes_set :
      (groups : Entries GroupDefinition) (set : List String) (svc : String)
      → includes set svc ≡ true
      → includes (services_of_groups current groups set) svc ≡ true
  unfolding services_of_groups
  services_of_groups-includes_set [] set svc h = h
  services_of_groups-includes_set ((g, def) ∷ groups) set svc h =
      services_of_groups-includes_set groups _ svc
        (elim (Bool-cases (is_unchanged (lookup g current.groups) def)) [
          | inl e ↦ rw e h
          | inr e ↦ rw e (
              add_elements-includes (keys (or_else (lookup g current.groups) [])) _ svc
                (add_elements-includes (keys def) set svc h))
        ])

  services_of_groups-includes :
      (groups : Entries GroupDefinition) (set : List String) (g svc : String)
      (def : GroupDefinition)
      → lookup g groups ≡ some def
      → is_unchanged (lookup g current.groups) def ≡ false
      → includes (keys def) svc ≡ true
      → includes (services_of_groups current groups set) svc ≡ true
  unfolding services_of_groups
  services_of_groups-includes [] set g svc def h c k = cc
  services_of_groups-includes ((j, d) ∷ groups) set g svc def h c k = elim (Bool-cases (j == g)) [
    | inl e ↦
        let same : d ≡ def = some-injective d def (rw e at h) in
        services_of_groups-includes_set groups _ svc (
          rw ((eq_iff j g).0 e, same, c)
            (add_elements-includes (keys (or_else (lookup g current.groups) [])) _ svc (
              includes-add_elements (keys def) set svc
              ∙ ap (λ b. includes set svc || b) k
              ∙ ground arith)))
    | inr e ↦ services_of_groups-includes groups _ g svc def (rw e at h) c k
  ]

  services_of_names-includes :
      (gs set : List String) (svc : String)
      → includes set svc ≡ true
      → includes (services_of_names current gs set) svc ≡ true
  unfolding services_of_names
  services_of_names-includes [] set svc h = h
  services_of_names-includes (g ∷ gs) set svc h =
      services_of_names-includes gs _ svc
        (add_elements-includes (keys (or_else (lookup g current.groups) [])) set svc h)

  services_of_members-includes :
      (es : Entries (List String)) (set : List String) (svc : String)
      → includes set svc ≡ true
      → includes (services_of_members current es set) svc ≡ true
  unfolding services_of_members
  services_of_members-includes [] set svc h = h
  services_of_members-includes ((email, gs) ∷ es) set svc h =
      services_of_members-includes es _ svc (services_of_names-includes _ set svc h)

  pub affected_services-includes :
      (p : ProposedChange) (g svc : String) (def : GroupDefinition)
      → lookup g p.groups ≡ some def
      → is_unchanged (lookup g current.groups) def ≡ false
      → includes (keys def) svc ≡ true
      → (svc == "global") ≡ false
      → includes (affected_services current p) svc ≡ true
  unfolding affected_services
  affected_services-includes p g svc def proposed changed bound other =
      includes-filter (λ s. not (s == "global"))
        (services_of_members current p.group_membership (
          add_elements (keys p.route_maps)
            (add_elements (keys p.roles) (services_of_groups current p.groups []))))
        svc
      ∙ rw other (
          services_of_members-includes p.group_membership _ svc (
            add_elements-includes (keys p.route_maps) _ svc (
              add_elements-includes (keys p.roles) _ svc
                (services_of_groups-includes p.groups [] g svc def proposed changed bound))))

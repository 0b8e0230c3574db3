-- ===== src/Gateway/Derived.antt =====
-- Which service a rule belongs to, and the configuration that its authorizer is given.
use mathlib.Core.Option.{some-injective}
use jinbe.Prelude.{
  ℕ, ◌≤◌, String, ◌≡◌, refl, ap, subst, sym, ◌∙◌, inl, inr, true, ◌==◌, eq_iff, Option, none, some,
  List, [], ◌∷◌, Bool-cases, or_else, includes, text_length, arith,
}
use jinbe.Gateway.{before_dash, owns, longer, best_service, derive_service_for_rule}

le_trans : {a b c : ℕ} → a ≤ b → b ≤ c → a ≤ c
le_trans h k = omega (arith, h, k)

-- `s` is a service of the rule `id`, and none of `services` that is one has a longer name.
pub record IsLongest (id s : String) (services : List String) : Type 0 where
  pub owner : owns id s ≡ true
  pub longest :
      (t : String) → includes services t ≡ true → owns id t ≡ true → text_length t ≤ text_length s

module _ (id : String) where
  -- what the loop knows of its best so far: it is a service of the rule
  abbrev OwnedOr : Option String → Type 0
  OwnedOr none = Unit
  OwnedOr (some b) = owns id b ≡ true

  longer-IsOwner :
      (best : Option String) (s : String)
      → OwnedOr best
      → owns id s ≡ true
      → owns id (longer best s) ≡ true
  longer-IsOwner none s h e = e
  longer-IsOwner (some b) s h e = ground arith

  le-longer : (b s : String) → text_length b ≤ text_length (longer (some b) s)
  le-longer b s = ground arith

  le-longer_new : (b s : String) → text_length s ≤ text_length (longer (some b) s)
  le-longer_new b s = ground arith

  best_service-some :
      (b : String) (services : List String)
      → owns id b ≡ true
      → (s : String) × (best_service id (some b) services ≡ some s)
        × (text_length b ≤ text_length s)
        × IsLongest id s services
  best_service-some b [] h = (b, refl, grind arith, record { owner = h; longest = λ t e o. cc })
  best_service-some b (x ∷ xs) h = elim (Bool-cases (owns id x)) [
    | inl mine ↦
        let (s, e, le, k) =
          best_service-some (longer (some b) x) xs (longer-IsOwner (some b) x h mine) in
        (
          s,
          rw (mine, e) refl,
          le_trans (le-longer b x) le,
          record {
            owner = k.owner;
            longest = λ t i o. elim (Bool-cases (x == t)) [
              | inl same ↦
                  le_trans
                    (subst (λ y. text_length y ≤ text_length (longer (some b) x))
                      ((eq_iff x t).0 same) (le-longer_new b x))
                    le
              | inr new ↦ k.longest t (rw new at i) o
            ];
          },
        )
    | inr other ↦
        let (s, e, le, k) = best_service-some b xs h in
        (
          s,
          rw (other, e) refl,
          le,
          record {
            owner = k.owner;
            longest = λ t i o. elim (Bool-cases (x == t)) [
              | inl same ↦ cc (ap (owns id) ((eq_iff x t).0 same), other, o)
              | inr new ↦ k.longest t (rw new at i) o
            ];
          },
        )
  ]

  best_service-IsLongest :
      (services : List String) (s : String)
      → best_service id none services ≡ some s
      → IsLongest id s services
  best_service-IsLongest [] s h = cc
  best_service-IsLongest (x ∷ xs) s h = elim (Bool-cases (owns id x)) [
    | inl mine ↦
        let (r, e, le, k) = best_service-some x xs mine in
        let same : r ≡ s = some-injective r s (sym e ∙ rw mine at h) in
        subst (λ y. IsLongest id y (x ∷ xs)) same
          (record {
            owner = k.owner;
            longest = λ t i o. elim (Bool-cases (x == t)) [
              | inl first ↦ subst (λ y. text_length y ≤ text_length r) ((eq_iff x t).0 first) le
              | inr new ↦ k.longest t (rw new at i) o
            ];
          })
    | inr other ↦
        let k = best_service-IsLongest xs s (rw other at h) in
        record {
          owner = k.owner;
          longest = λ t i o. elim (Bool-cases (x == t)) [
            | inl first ↦ cc (ap (owns id) ((eq_iff x t).0 first), other, o)
            | inr new ↦ k.longest t (rw new at i) o
          ];
        }
  ]

  best_service-none :
      (services : List String) (t : String)
      → includes services t ≡ true
      → owns id t ≡ true
      → (s : String) × (best_service id none services ≡ some s)
  best_service-none [] t i o = cc
  best_service-none (x ∷ xs) t i o = elim (Bool-cases (owns id x)) [
    | inl mine ↦ let (s, e, le, k) = best_service-some x xs mine in (s, rw (mine, e) refl)
    | inr other ↦ elim (Bool-cases (x == t)) [
      | inl first ↦ cc (ap (owns id) ((eq_iff x t).0 first), other, o)
      | inr new ↦ rw other (best_service-none xs t (rw new at i) o)
    ]
  ]

  -- A rule whose id is that of a registered service, or starts with it and a dash, is given to a
  -- service for which this holds, and no such service has a longer name: `order-service` is
  -- preferred to `order`.
  pub derive_service_for_rule-IsLongest :
      (services : List String) (t : String)
      → includes services t ≡ true
      → owns id t ≡ true
      → IsLongest id (derive_service_for_rule id services) services
  unfolding derive_service_for_rule
  derive_service_for_rule-IsLongest services t i o =
      let (s, e) = best_service-none services t i o in
      subst (λ b. IsLongest id (or_else b (before_dash id)) services) (sym e)
        (best_service-IsLongest services s e)

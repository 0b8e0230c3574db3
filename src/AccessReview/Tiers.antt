-- ===== src/AccessReview/Tiers.antt =====
-- Who is listed by the access review of src/services/access-review.service.ts as one who can do
-- anything, the tiers 0 and 1.
use jinbe.Prelude.{
  ℕ, String, ◌≡◌, ◌≢◌, refl, ap, ◌∙◌, inl, inr, Bool, true, false, not, ◌&&◌, ◌||◌, ◌==◌, leb,
  Bool-cases, Option, Option-cases, none, some, List, [], ◌∷◌, any, All, is_empty, Entries, arith,
}
use jinbe.Redis.{Redis}
use jinbe.Rbac.{RbacStore, GroupDefinition, get_group, group_grants_admin_power}
use jinbe.Kratos.Directory.{Binding}
use jinbe.AccessReview.{GroupPower, classified}
use jinbe.AccessReview.Scores.{tier_of, insert_ranked, sort_ranked}
use jinbe.AccessReview.Identities.{
  Knowledge, AccessReviewIdentity, GroupsReach, no_reach, join_group, join_groups, power_of,
  admin_orgs, tier_for, to_identity, review_identity, cons_some, review_all, compute,
}
use jinbe.AccessReview.Admins.{IsObject, confers, confers-classified, is_empty-add_elements}

module _ {A : Type 0} (before : A → A → Bool) where
  All-insert_ranked :
      (P : A → Type 0) (x : A) (xs : List A) → P x → All P xs → All P (insert_ranked before x xs)
  All-insert_ranked P x [] p h = (p, tt)
  All-insert_ranked P x (y ∷ ys) p (q, h) = elim (Bool-cases (before y x)) [
    | inl e ↦ rw e (q, All-insert_ranked P x ys p h)
    | inr e ↦ rw e (p, (q, h))
  ]

  All-sort_ranked : (P : A → Type 0) (xs : List A) → All P xs → All P (sort_ranked before xs)
  All-sort_ranked P [] h = tt
  All-sort_ranked P (x ∷ xs) (p, h) =
      All-insert_ranked P x (sort_ranked before xs) p (All-sort_ranked P xs h)

  any-insert_ranked :
      (p : A → Bool) (x : A) (xs : List A) → any p (insert_ranked before x xs) ≡ (p x || any p xs)
  any-insert_ranked p x [] = refl
  any-insert_ranked p x (y ∷ ys) = elim (Bool-cases (before y x)) [
    | inl e ↦ rw e (ap (λ b. p y || b) (any-insert_ranked p x ys) ∙ ground arith)
    | inr e ↦ rw e refl
  ]

  any-sort_ranked : (p : A → Bool) (xs : List A) → any p (sort_ranked before xs) ≡ any p xs
  any-sort_ranked p [] = refl
  any-sort_ranked p (x ∷ xs) =
      any-insert_ranked p x (sort_ranked before xs) ∙ ap (λ b. p x || b) (any-sort_ranked p xs)

-- what the groups so far confer
abbrev total : GroupsReach → Bool
total r = r.global_power || not (is_empty r.wildcard_services)

tier_of-admin :
    (global_power wildcard org : Bool) (reach tier : ℕ)
    → tier_of global_power wildcard org reach ≡ some tier
    → leb tier 1 ≡ (global_power || wildcard)
unfolding tier_of
tier_of-admin true wildcard org reach tier h = ground arith
tier_of-admin false true org reach tier h = ground arith
tier_of-admin false false true reach tier h = ground arith
tier_of-admin false false false reach tier h = ground arith

tier_of-listed :
    (global_power wildcard org : Bool) (reach : ℕ)
    → (global_power || wildcard) ≡ true
    → tier_of global_power wildcard org reach ≢ none
unfolding tier_of
tier_of-listed global_power wildcard org reach h = ground arith

module _ (redis : Redis) (k : Knowledge) (s : RbacStore redis) where
  total-join_group :
      (g : String) (power : Option GroupPower) (r : GroupsReach)
      → total (join_group g power r) ≡ (total r || confers redis s power)
  total-join_group g none r = ground arith
  total-join_group g (some gp) r =
      ground (arith, is_empty-add_elements gp.wildcard_services r.wildcard_services)

  -- Every definition that is stored has each service once.
  abbrev pub AreObjects : Type 0
  AreObjects = (g : String) (def : GroupDefinition) → get_group redis s g ≡ some def → IsObject def

  confers-power_of :
      (g : String)
      → AreObjects
      → confers redis s (power_of redis k s g) ≡ group_grants_admin_power redis s g
  unfolding power_of
  confers-power_of g objects =
      ap (λ def. confers redis s (classified redis s g def))
        (redis.lookup-hgetall GroupDefinition s.groups g)
      ∙ confers-classified redis s g (objects g)

  total-join_groups :
      (gs : List String) (r : GroupsReach)
      → AreObjects
      → total (join_groups redis k s gs r) ≡ (total r || any (group_grants_admin_power redis s) gs)
  unfolding join_groups
  total-join_groups [] r objects = ground arith
  total-join_groups (g ∷ gs) r objects =
      total-join_groups gs (join_group g (power_of redis k s g) r) objects
      ∙ ap (λ b. b || any (group_grants_admin_power redis s) gs)
          (total-join_group g (power_of redis k s g) r
            ∙ ap (λ b. total r || b) (confers-power_of g objects))
      ∙ ground arith

  module _ (services : List String) (rosters : Entries (List String)) where
    -- The tier is 0 or 1 exactly if a group of the identity has admin power.
    abbrev pub IsTiered : AccessReviewIdentity → Type 0
    IsTiered i = leb i.tier 1 ≡ any (group_grants_admin_power redis s) i.groups

    -- the identity is listed in one of these tiers
    abbrev pub is_admin_entry : String → AccessReviewIdentity → Bool
    is_admin_entry email i = i.email == email && leb i.tier 1

    abbrev IsReviewed : String → Binding → Option AccessReviewIdentity → Type 0
    IsReviewed email b none = any (group_grants_admin_power redis s) b.groups ≡ false
    IsReviewed email b (some i) = (i.email ≡ email) × (i.groups ≡ b.groups) × IsTiered i

    review_identity-IsReviewed :
        (email : String) (b : Binding)
        → AreObjects
        → IsReviewed email b (review_identity redis k s services rosters email b)
    unfolding review_identity to_identity
    review_identity-IsReviewed email b objects =
        let r : GroupsReach = join_groups redis k s b.groups no_reach in
        let orgs : List String = admin_orgs k.js rosters email b in
        let power : total r ≡ any (group_grants_admin_power redis s) b.groups =
          total-join_groups b.groups no_reach objects in
        elim (Option-cases (tier_for redis k s services rosters r orgs)) [
          | inl below ↦
              rw (below, review_identity)
                (elim (Bool-cases (any (group_grants_admin_power redis s) b.groups)) [
                  | inl powerful ↦ absurd (tier_of-listed _ _ _ _ (power ∙ powerful) below)
                  | inr powerless ↦ powerless
                ])
          | inr (tier, listed) ↦
              rw (listed, review_identity) (refl, refl, tier_of-admin _ _ _ _ tier listed ∙ power)
        ]

    All-cons_some :
        (email : String) (b : Binding) (i : Option AccessReviewIdentity)
        (is : List AccessReviewIdentity)
        → IsReviewed email b i
        → All IsTiered is
        → All IsTiered (cons_some redis k s services rosters i is)
    All-cons_some email b none is h rest = rest
    All-cons_some email b (some i) is (e, g, tiered) rest = (tiered, rest)

    review_all-IsTiered :
        (bindings : Entries Binding)
        → AreObjects
        → All IsTiered (review_all redis k s services rosters bindings)
    unfolding review_all
    review_all-IsTiered [] objects = tt
    review_all-IsTiered ((email, b) ∷ rest) objects =
        All-cons_some email b (review_identity redis k s services rosters email b) _
          (review_identity-IsReviewed email b objects) (review_all-IsTiered rest objects)

    -- the identity of the directory has the address and a group with admin power
    abbrev pub is_admin_binding : String → String × Binding → Bool
    is_admin_binding email (e, b) = e == email && any (group_grants_admin_power redis s) b.groups

    any-cons_some :
        (email e : String) (b : Binding) (i : Option AccessReviewIdentity)
        (is : List AccessReviewIdentity)
        → IsReviewed e b i
        → any (is_admin_entry email) (cons_some redis k s services rosters i is)
          ≡ (is_admin_binding email (e, b) || any (is_admin_entry email) is)
    any-cons_some email e b none is powerless = rw powerless (ground arith)
    any-cons_some email e b (some i) is (same, groups, tiered) = rw (same, tiered, groups) refl

    any-review_all :
        (email : String) (bindings : Entries Binding)
        → AreObjects
        → any (is_admin_entry email) (review_all redis k s services rosters bindings)
          ≡ any (is_admin_binding email) bindings
    unfolding review_all
    any-review_all email [] objects = refl
    any-review_all email ((e, b) ∷ rest) objects =
        any-cons_some email e b (review_identity redis k s services rosters e b) _
          (review_identity-IsReviewed e b objects)
        ∙ ap (λ found. is_admin_binding email (e, b) || found) (any-review_all email rest objects)

    -- Where each stored definition has each service once, the access review lists an address in the
    -- tiers 0 and 1 exactly if an identity of the directory has the address and a group with admin
    -- power; and the tier of each identity that it lists is 0 or 1 exactly if one of its groups has it.
    pub compute-IsTiered :
        (bindings : Entries Binding)
        → AreObjects
        → ((email : String)
            → any (is_admin_entry email) (compute redis k s services rosters bindings)
              ≡ any (is_admin_binding email) bindings)
          × All IsTiered (compute redis k s services rosters bindings)
    unfolding compute
    compute-IsTiered bindings objects = (
      (λ email. any-sort_ranked _ (is_admin_entry email) _ ∙ any-review_all email bindings objects),
      All-sort_ranked _ IsTiered _ (review_all-IsTiered bindings objects),
    )

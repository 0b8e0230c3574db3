-- ===== src/Recert/Generation/Laws.antt =====
-- What `generateItems` makes: nothing outside the scope, nothing that is decided, no reviewer of
-- one's own membership without a flag, and nothing of the scope left out.
use jinbe.Prelude.{
  TextOps, ℕ, ◌+◌, ◌%◌, String, ◌≡◌, ◌≢◌, refl, ap, Bool, true, false, not, ◌&&◌, ◌||◌, ◌==◌,
  eq_iff, eq_refl, Option, none, some, List, [], ◌∷◌, ◌++◌, arith, All, All-append, any, find?,
  find?-passes, includes, includes-append, includes-filter, length, lookup, or_else, Entries, inl,
  inr, Bool-cases, Option-cases,
}
use jinbe.Recert.{RecertCampaign, RecertItem, RecertItemContext, pending, default_group, norm}
use jinbe.Recert.Generation.{
  no_context, get_elem?, scope_groups, assign, new_item, items_of_user, generate_items,
}

-- The default group is never in scope.
scope_groups-default_group :
    (defined : List String) (groups : Option (List String))
    → includes (scope_groups defined groups) default_group ≡ false
unfolding scope_groups
scope_groups-default_group defined none = ground (
  arith,
  includes-filter (λ g. not (g == default_group)) defined default_group,
  eq_refl default_group,
)
scope_groups-default_group defined (some groups) = ground (
  arith,
  includes-filter (λ g. not (g == default_group)) defined default_group,
  includes-filter (λ g. not (g == default_group)) groups default_group,
  eq_refl default_group,
)

find?-none : {A : Type 0} (p : A → Bool) (xs : List A) → find? p xs ≡ none → any p xs ≡ false
find?-none p [] h = refl
find?-none p (x ∷ xs) h = elim (Bool-cases (p x)) [
  | inl e ↦ cc (rw e at h)
  | inr e ↦ rw e (find?-none p xs (rw e at h))
]

assign-IsIndependent :
    (reviewers : List String) (rr : ℕ) (subject : String)
    → (assign reviewers rr subject).0 ≡ subject
    → (any (λ r. not (r == subject)) reviewers ≡ false)
      × ((assign reviewers rr subject).1 ≡ "self-review" ∷ [])
unfolding assign
assign-IsIndependent reviewers rr subject h =
    elim (Bool-cases (or_else (get_elem? reviewers (rr % length reviewers)) "" == subject)) [
      | inr other ↦ ground (
        arith,
        rw other at h,
        eq_iff (or_else (get_elem? reviewers (rr % length reviewers)) "") subject,
      )
      | inl same ↦ elim (Option-cases (find? (λ r. not (r == subject)) reviewers)) [
        | inl nobody ↦ rw (same, nobody) (find?-none _ reviewers nobody, refl)
        | inr (r, found) ↦
            let passes = find?-passes (λ r. not (r == subject)) reviewers r found in
            ground (arith, rw (same, found) at h, eq_iff r subject, passes)
      ]
    ]

any-append :
    {A : Type 0} (p : A → Bool) (xs ys : List A) → any p (xs ++ ys) ≡ (any p xs || any p ys)
any-append p [] ys = refl
any-append p (x ∷ xs) ys = ground (arith, any-append p xs ys)

module _ (js : TextOps) (fresh : ℕ → String) (context : Entries RecertItemContext)
    (scope : List String) (c : RecertCampaign) where
  -- An item as it should be made: the last field is the guard against reviewing oneself.
  pub record IsGenerated (i : RecertItem) : Type 0 where
    pub in_scope : includes scope i.group ≡ true
    pub of_campaign : i.campaign_id ≡ c.id
    pub undecided : (i.decision ≡ pending) × (i.decided_by ≡ none) × (i.outcome ≡ none)
    pub not_self :
        i.reviewer ≡ i.subject
        → (any (λ r. not (r == i.subject)) c.reviewers ≡ false)
          × (includes i.context.flags "self-review" ≡ true)

  new_item-IsGenerated :
      (rr : ℕ) (subject group : String)
      → includes scope group ≡ true
      → IsGenerated (new_item js fresh context scope c rr subject group)
  unfolding new_item
  new_item-IsGenerated rr subject group h = record {
    in_scope = h;
    of_campaign = refl;
    undecided = (refl, refl, refl);
    not_self = λ e.
        let (alone, flag) = assign-IsIndependent c.reviewers rr subject e in
        (
          alone,
          rw
              (
                flag,
                includes-append (or_else (lookup subject context) no_context).flags
                    ("self-review" ∷ []) "self-review",
              )
              (ground arith),
        );
  }

  items_of_user-IsGenerated :
      (rr : ℕ) (subject : String) (groups : List String)
      → All IsGenerated (items_of_user js fresh context scope c rr subject groups)
  unfolding items_of_user
  items_of_user-IsGenerated rr subject [] = tt
  items_of_user-IsGenerated rr subject (g ∷ gs) = elim (Bool-cases (includes scope g)) [
    | inl e ↦
        rw e (new_item-IsGenerated rr subject g e, items_of_user-IsGenerated (rr + 1) subject gs)
    | inr e ↦ rw e (items_of_user-IsGenerated rr subject gs)
  ]

  -- Every item that is made is about a group in scope, belongs to the campaign and is undecided.
  -- Its reviewer is its subject only if the campaign has no other reviewer, and then the item
  -- carries the flag "self-review".
  pub generate_items-IsGenerated :
      (rr : ℕ) (directory : List (String × List String))
      → All IsGenerated (generate_items js fresh context scope c rr directory)
  unfolding generate_items
  generate_items-IsGenerated rr [] = tt
  generate_items-IsGenerated rr ((email, groups) ∷ directory) =
      let items = items_of_user js fresh context scope c rr (norm js email) groups in
      All-append IsGenerated items _ (items_of_user-IsGenerated rr (norm js email) groups)
        (generate_items-IsGenerated (rr + length items) directory)

  abbrev pub covers : String → String → RecertItem → Bool
  covers subject group i = i.subject == subject && i.group == group

  items_of_user-covers :
      (rr : ℕ) (subject : String) (groups : List String) (g : String)
      → includes scope g ≡ true
      → includes groups g ≡ true
      → any (covers subject g) (items_of_user js fresh context scope c rr subject groups) ≡ true
  unfolding items_of_user new_item
  items_of_user-covers rr subject [] g h k = cc
  items_of_user-covers rr subject (g' ∷ gs) g h k = ground (
    arith,
    eq_iff g' g,
    eq_refl subject,
    items_of_user-covers (rr + 1) subject gs g h,
    items_of_user-covers rr subject gs g h,
  )

  -- Each user that the directory lists with a group in scope has an item for that group.
  pub generate_items-covers :
      (rr : ℕ) (before after : List (String × List String)) (email : String) (groups : List String)
      (g : String)
      → includes scope g ≡ true
      → includes groups g ≡ true
      → any
          (covers (norm js email) g)
          (generate_items js fresh context scope c rr (before ++ ((email, groups) ∷ after)))
        ≡ true
  unfolding generate_items
  generate_items-covers rr [] after email groups g h k =
      let items = items_of_user js fresh context scope c rr (norm js email) groups in
      rw
        (
          any-append (covers (norm js email) g) items _,
          items_of_user-covers rr (norm js email) groups g h k,
        )
        refl
  generate_items-covers rr ((e, gs) ∷ before) after email groups g h k =
      let items = items_of_user js fresh context scope c rr (norm js e) gs in
      rw
        (
          any-append (covers (norm js email) g) items _,
          generate_items-covers (rr + length items) before after email groups g h k,
        )
        (ground arith)

module _ (js : TextOps) (fresh : ℕ → String) (context : Entries RecertItemContext)
    (c : RecertCampaign) where
  apart :
      (scope : List String) (a : String)
      → includes scope default_group ≡ false
      → includes scope a ≡ true
      → a ≢ default_group
  apart scope a h k e = cc (ap (includes scope) e)

  apart-All :
      (scope : List String) (items : List RecertItem)
      → includes scope default_group ≡ false
      → All (IsGenerated js fresh context scope c) items
      → All (λ (i : RecertItem). i.group ≢ default_group) items
  apart-All scope [] h k = tt
  apart-All scope (i ∷ is) h (k, ks) = (apart scope i.group h k.in_scope, apart-All scope is h ks)

  -- Whatever scope the campaign has, no item is made about the default group.
  generate_items-default_group :
      (defined : List String) (groups : Option (List String))
      (directory : List (String × List String))
      → All
          (λ (i : RecertItem). i.group ≢ default_group)
          (generate_items js fresh context (scope_groups defined groups) c 0 directory)
  generate_items-default_group defined groups directory =
      apart-All (scope_groups defined groups) _ (scope_groups-default_group defined groups)
        (generate_items-IsGenerated js fresh context (scope_groups defined groups) c 0 directory)

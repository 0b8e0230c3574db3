-- ===== src/Scim/Paging.antt =====
-- Listing SCIM users: the bounds of a page, pages one after another, and the walk of the directory.
use jinbe.Prelude.{
  ℕ, zero, suc, ◌+◌, ◌-◌, ◌*◌, ◌≤◌, String, ◌≡◌, refl, ap, subst, ◌∙◌, sym, Option, none, some,
  List, [], ◌∷◌, ◌++◌, map, Result, ok, err, arith, length, TextOps, Result-cases, inl, inr,
}
use jinbe.Kratos.{Kratos, Identity, Failure}
use jinbe.Scim.{ScimError, ScimUser, to_scim_user}
use jinbe.Scim.Filter.{Attribute, parse_filter}
use jinbe.Scim.Listing.{
  ℤ, pos, negsuc, start_of, count_of, take, drop, ListOptions, ListResponse, to_response, matching,
  list_users,
}

module _ {ℓ} {A : Type ℓ} where
  length-take : (n : ℕ) (xs : List A) → length (take n xs) ≤ n
  length-take zero xs = grind arith
  length-take (suc n) [] = grind arith
  length-take (suc n) (x ∷ xs) = grind (arith, length-take n xs)

  length-take_le : (n : ℕ) (xs : List A) → length (take n xs) ≤ length xs
  length-take_le zero xs = grind arith
  length-take_le (suc n) [] = grind arith
  length-take_le (suc n) (x ∷ xs) = grind (arith, length-take_le n xs)

  length-drop : (n : ℕ) (xs : List A) → length (drop n xs) ≡ length xs - n
  length-drop zero xs = grind arith
  length-drop (suc n) [] = grind arith
  length-drop (suc n) (x ∷ xs) = grind (arith, length-drop n xs)

  length-map : {B : Type ℓ} (f : A → B) (xs : List A) → length (map f xs) ≡ length xs
  length-map f [] = refl
  length-map f (x ∷ xs) = ap suc (length-map f xs)

  -- a page after what stands before it
  take-append : (a c : ℕ) (xs : List A) → take a xs ++ take c (drop a xs) ≡ take (a + c) xs
  take-append zero c xs = let e : c ≡ 0 + c = omega arith in ap (λ n. take n xs) e
  take-append (suc a) zero [] =
      let e : suc (a + 0) ≡ suc a + 0 = omega arith in ap (λ n. take n []) e
  take-append (suc a) (suc c) [] =
      let e : suc (a + suc c) ≡ suc a + suc c = omega arith in ap (λ n. take n []) e
  take-append (suc a) c (x ∷ xs) =
      let e : suc (a + c) ≡ suc a + c = omega arith in
      ap (λ ys. x ∷ ys) (take-append a c xs) ∙ ap (λ n. take n (x ∷ xs)) e

  take-everything : (n : ℕ) (xs : List A) → length xs ≤ n → take n xs ≡ xs
  take-everything zero [] h = refl
  take-everything zero (x ∷ xs) h = grind (arith, h)
  take-everything (suc n) [] h = refl
  take-everything (suc n) (x ∷ xs) h = ap (λ ys. x ∷ ys) (take-everything n xs (grind (arith, h)))

  map-append : {B : Type ℓ} (f : A → B) (xs ys : List A) → map f (xs ++ ys) ≡ map f xs ++ map f ys
  map-append f [] ys = refl
  map-append f (x ∷ xs) ys = ap (λ zs. f x ∷ zs) (map-append f xs ys)

start_of-pos : (i : Option ℤ) → 1 ≤ start_of i
start_of-pos none = grind arith
start_of-pos (some (pos n)) = ground arith
start_of-pos (some (negsuc n)) = grind arith

count_of-le : (i : Option ℤ) → count_of i ≤ 200
count_of-le none = grind arith
count_of-le (some (pos n)) = ground arith
count_of-le (some (negsuc n)) = grind arith

start_of-suc : (m : ℕ) → start_of (some (pos (suc m))) - 1 ≡ m
start_of-suc m = ground arith

count_of-small : (c : ℕ) → c ≤ 200 → count_of (some (pos c)) ≡ c
count_of-small c h = ground arith

ok-injective : (a b : ListResponse) → ◌≡◌ {A = Result ScimError ListResponse} (ok a) (ok b) → a ≡ b
ok-injective a b h = cc

-- the bounds of RFC 7644 on a response
abbrev pub IsBounded : ListResponse → Type 0
IsBounded r =
    (1 ≤ r.start_index)
    × (r.items_per_page ≤ 200)
    × (length r.resources ≡ r.items_per_page)
    × (r.items_per_page ≤ r.total_results - (r.start_index - 1))

to_response-IsBounded : (o : ListOptions) (xs : List Identity) → IsBounded (to_response o xs)
to_response-IsBounded o xs =
    let from = start_of o.start_index - 1 in
    let n = count_of o.count in
    (
      start_of-pos o.start_index,
      grind (arith, length-take n (drop from xs), count_of-le o.count),
      length-map to_scim_user (take n (drop from xs)),
      grind (arith, length-take_le n (drop from xs), length-drop from xs),
    )

module _ (k : Kratos)
    (list_identities : k.World → Option String → Result Failure (List Identity × Option String))
    (js : TextOps) where
  -- Whatever a client asks for, a response starts at 1 or later, has at most 200 users, states how
  -- many there are, and has no more of them than there are from its start to the total.
  pub list_users-IsBounded :
      (w : k.World) (o : ListOptions) (r : ListResponse)
      → list_users k list_identities js w o ≡ ok r
      → IsBounded r
  unfolding list_users
  list_users-IsBounded w o r h = elim (Result-cases (parse_filter o.filter)) [
    | inl (e, parse) ↦ cc (rw (parse, list_users) at h)
    | inr (parsed, parse) ↦ elim (Result-cases (matching k list_identities js w parsed)) [
      | inl (e, match) ↦ cc (rw (parse, list_users, match) at h)
      | inr (xs, match) ↦
          let e : to_response o xs ≡ r = ok-injective _ _ (rw (parse, list_users, match) at h) in
          subst IsBounded e (to_response-IsBounded o xs)
    ]
  ]

  -- the request for the page of `c` users after `n` such pages
  abbrev nth_page : Option String → ℕ → ℕ → ListOptions
  nth_page f c n = record {
    filter = f;
    start_index = some (pos (suc (n * c)));
    count = some (pos c);
  }

  -- what a client has that asks for `n` pages of `c` users, one after another
  abbrev pub collect : k.World → Option String → ℕ → ℕ → Result ScimError (List ScimUser)
  collect w f c zero = ok []
  collect w f c (suc n) = elim (collect w f c n) [
    | err e ↦ err e
    | ok us ↦ elim (list_users k list_identities js w (nth_page f c n)) [
      | err e ↦ err e
      | ok r ↦ ok (us ++ r.resources)
    ]
  ]

  module _ (w : k.World) (f : Option String) (parsed : Option (Attribute × String))
      (xs : List Identity) (parse : parse_filter f ≡ ok parsed)
      (match : matching k list_identities js w parsed ≡ ok xs) where
    list_users-to_response :
        (o : ListOptions)
        → o.filter ≡ f
        → list_users k list_identities js w o ≡ ok (to_response o xs)
    unfolding list_users
    list_users-to_response o e = rw (e, list_users, parse, match) refl

    page-resources :
        (c n : ℕ)
        → c ≤ 200
        → (to_response (nth_page f c n) xs).resources ≡ map to_scim_user (take c (drop (n * c) xs))
    page-resources c n h =
        let from = start_of-suc (n * c) in
        let count = count_of-small c h in
        ap (λ m. map to_scim_user (take (count_of (some (pos c))) (drop m xs))) from
        ∙ ap (λ m. map to_scim_user (take m (drop (n * c) xs))) count

    collect-take : (c n : ℕ) → c ≤ 200 → collect w f c n ≡ ok (map to_scim_user (take (n * c) xs))
    collect-take c zero h =
        let e : 0 ≡ 0 * c = grind arith in ap (λ m. ok (map to_scim_user (take m xs))) e
    collect-take c (suc n) h =
        rw (collect-take c n h, list_users-to_response (nth_page f c n) refl, page-resources c n h)
          (let e : n * c + c ≡ suc n * c = grind arith in
            let joined = take-append (n * c) c xs ∙ ap (λ m. take m xs) e in
            ap ok (
              sym (map-append to_scim_user (take (n * c) xs) (take c (drop (n * c) xs)))
              ∙ ap (map to_scim_user) joined))

  -- A client that asks for pages of `c` users, one after another, gets each user that the filter
  -- matches once and in order, when `n` such pages are enough for all of them. It holds for up to 200
  -- users to a page, while the directory does not change.
  pub collect-everything :
      (w : k.World) (f : Option String) (parsed : Option (Attribute × String)) (xs : List Identity)
      → parse_filter f ≡ ok parsed
      → matching k list_identities js w parsed ≡ ok xs
      → (c n : ℕ) → c ≤ 200
      → length xs ≤ n * c
      → collect w f c n ≡ ok (map to_scim_user xs)
  collect-everything w f parsed xs parse match c n small enough =
      collect-take w f parsed xs parse match c n small
      ∙ ap (λ ys. ok (map to_scim_user ys)) (take-everything (n * c) xs enough)

-- ===== src/Prelude/Lists.antt =====
-- Arrays and plain objects of JavaScript: `includes`, `filter` by a Boolean test, `some`, `find`,
-- and an object that is read as a map, as the list of its entries.
use Prim.Native.Nat.{ℕ, suc}
use Prim.Native.String.{String}
use mathlib.Core.Path.{◌≡◌, refl, subst, ◌∙◌}
use mathlib.Core.Bool.{Bool, true, false, ◌&&◌, ◌||◌}
use mathlib.Core.Option.{Option, none, some}
use mathlib.Core.Logic.{inl, inr}
use mathlib.Core.List.{List, [], ◌∷◌, ◌++◌, map}
use native.Mathlib.Omega.{arith}
use text.Mathlib.Text.{◌==◌}
use text.Mathlib.TextEquality.{eq_iff}
use jinbe.Prelude.Tests.{if◌then◌else◌, Bool-cases}

module _ {ℓ} {A : Type ℓ} where
  abbrev pub length : List A → ℕ
  length [] = 0
  length (x ∷ xs) = suc (length xs)

  abbrev pub is_empty : List A → Bool
  is_empty [] = true
  is_empty (x ∷ xs) = false

  -- `xs.some(p)`
  abbrev pub any : (A → Bool) → List A → Bool
  any p [] = false
  any p (x ∷ xs) = p x || any p xs

  -- `xs.every(p)`
  abbrev pub all : (A → Bool) → List A → Bool
  all p [] = true
  all p (x ∷ xs) = p x && all p xs

  -- `xs.filter(p)`
  abbrev pub filter : (A → Bool) → List A → List A
  filter p [] = []
  filter p (x ∷ xs) = let rest = filter p xs in if p x then x ∷ rest else rest

  -- `xs.find(p)`
  abbrev pub find? : (A → Bool) → List A → Option A
  find? p [] = none
  find? p (x ∷ xs) = if p x then some x else find? p xs

  -- What is found passes the test.
  pub find?-passes : (p : A → Bool) (xs : List A) (a : A) → find? p xs ≡ some a → p a ≡ true
  find?-passes p [] a h = cc
  find?-passes p (x ∷ xs) a h = elim (Bool-cases (p x)) [
    | inl e ↦ cc (rw e at h, e)
    | inr e ↦ find?-passes p xs a (rw e at h)
  ]

  abbrev pub head? : List A → Option A
  head? [] = none
  head? (x ∷ xs) = some x

module _ {ℓ κ} {A : Type ℓ} (P : A → Type κ) where
  abbrev pub All : List A → Type κ
  All [] = Unit
  All (x ∷ xs) = P x × All xs

  pub All-append : (xs ys : List A) → All xs → All ys → All (xs ++ ys)
  All-append [] ys h k = k
  All-append (x ∷ xs) ys (p, h) k = (p, All-append xs ys h k)

module _ {ℓ κ} {A : Type ℓ} (Q : A → Type κ) where
  pub All-filter :
      (p : A → Bool) (xs : List A) → All Q (filter p xs) → All (λ x. p x ≡ true → Q x) xs
  All-filter p [] h = tt
  All-filter p (x ∷ xs) h = elim (Bool-cases (p x)) [
    | inl e ↦ let (q, k) = rw e at h in ((λ _. q), All-filter p xs k)
    | inr e ↦ ((λ e'. cc), All-filter p xs (rw e at h))
  ]

  pub All-of_append : (xs ys : List A) → All Q (xs ++ ys) → All Q xs × All Q ys
  All-of_append [] ys h = (tt, h)
  All-of_append (x ∷ xs) ys (q, h) = let (a, b) = All-of_append xs ys h in ((q, a), b)

  pub All-of_map {μ} :
      {B : Type μ} (f : B → A) (xs : List B) → All Q (map f xs) → All (λ x. Q (f x)) xs
  All-of_map f [] h = tt
  All-of_map f (x ∷ xs) (q, h) = (q, All-of_map f xs h)

-- `xs.includes(a)`
abbrev pub includes : List String → String → Bool
includes [] a = false
includes (x ∷ xs) a = x == a || includes xs a

pub All-includes {κ} :
    (Q : String → Type κ) (xs : List String) (a : String) → All Q xs → includes xs a ≡ true → Q a
All-includes Q [] a h e = cc
All-includes Q (x ∷ xs) a (q, h) e = elim (Bool-cases (x == a)) [
  | inl same ↦ subst Q ((eq_iff x a).0 same) q
  | inr other ↦ All-includes Q xs a h (rw other at e)
]

pub includes-append :
    (xs ys : List String) (a : String) → includes (xs ++ ys) a ≡ (includes xs a || includes ys a)
includes-append [] ys a = refl
includes-append (x ∷ xs) ys a = ground (arith, includes-append xs ys a)

-- A filter by a test on the text keeps exactly the texts that pass it.
pub includes-filter :
    (p : String → Bool) (xs : List String) (a : String)
    → includes (filter p xs) a ≡ (p a && includes xs a)
includes-filter p [] a = ground arith
includes-filter p (x ∷ xs) a = ground (arith, includes-filter p xs a, eq_iff x a)

-- `set.add(s)`
abbrev pub add_element : String → List String → List String
add_element s set = if includes set s then set else set ++ s ∷ []

abbrev pub add_elements : List String → List String → List String
add_elements [] set = set
add_elements (s ∷ ss) set = add_elements ss (add_element s set)

pub includes-add_element :
    (s : String) (set : List String) (a : String)
    → includes (add_element s set) a ≡ (includes set a || s == a)
includes-add_element s set a = elim (Bool-cases (includes set s)) [
  | inl e ↦ rw e (elim (Bool-cases (s == a)) [
    | inl same ↦ rw (same, subst (λ x. includes set x ≡ true) ((eq_iff s a).0 same) e) refl
    | inr other ↦ rw other (ground arith)
  ])
  | inr e ↦ rw e (includes-append set (s ∷ []) a ∙ ground arith)
]

pub includes-add_elements :
    (ss set : List String) (a : String)
    → includes (add_elements ss set) a ≡ (includes set a || includes ss a)
includes-add_elements [] set a = ground arith
includes-add_elements (s ∷ ss) set a =
    includes-add_elements ss (add_element s set) a ∙ ground (arith, includes-add_element s set a)

-- `Object.entries(m)` of an object that serves as a map
abbrev pub Entries {ℓ} : Type ℓ → Type ℓ
Entries V = List (String × V)

module _ {ℓ} {V : Type ℓ} where
  -- `m[k]`
  abbrev pub lookup : String → Entries V → Option V
  lookup k [] = none
  lookup k ((j, v) ∷ m) = if j == k then some v else lookup k m

  -- `m[k] = v`
  abbrev pub insert : String → V → Entries V → Entries V
  insert k v [] = (k, v) ∷ []
  insert k v ((j, w) ∷ m) = if j == k then (k, v) ∷ m else (j, w) ∷ insert k v m

  -- `delete m[k]`
  abbrev pub erase : String → Entries V → Entries V
  erase k [] = []
  erase k ((j, w) ∷ m) = let rest = erase k m in if j == k then rest else (j, w) ∷ rest

  -- `Object.keys(m)`
  abbrev pub keys : Entries V → List String
  keys [] = []
  keys ((j, w) ∷ m) = j ∷ keys m

  pub lookup-insert :
      (k j : String) (v : V) (m : Entries V)
      → lookup j (insert k v m) ≡ (if k == j then some v else lookup j m)
  lookup-insert k j v [] = refl
  lookup-insert k j v ((i, w) ∷ m) =
      ground (arith, eq_iff k j, eq_iff i k, eq_iff i j, lookup-insert k j v m)

  pub lookup-erase :
      (k j : String) (m : Entries V) → lookup j (erase k m) ≡ (if k == j then none else lookup j m)
  lookup-erase k j [] = ground arith
  lookup-erase k j ((i, w) ∷ m) =
      ground (arith, eq_iff k j, eq_iff i k, eq_iff i j, lookup-erase k j m)

-- ===== src/Kratos/Directory/Walks.antt =====
-- The walks of src/services/kratos.service.ts read the whole list of identities, where Kratos serves it
-- in at most a thousand pages.
use jinbe.Prelude.{
  ℕ, zero, suc, ◌≤◌, String, ◌≡◌, refl, sym, ap, ◌∙◌, inl, inr, true, false, ◌==◌, eq_iff,
  Bool-cases, Option, none, some, List, [], ◌∷◌, ◌++◌, Result, ok, includes, filter, Entries, arith,
}
use jinbe.Kratos.{Failure}
use jinbe.Kratos.Directory.{
  Listed, Page, Binding, add_identities, same_token, next_token, unseen_token, is_member,
  walk_bindings, collect_members, Serves, last, more,
}

add_identities-append :
    (xs ys : List Listed) (m : Entries Binding)
    → add_identities (xs ++ ys) m ≡ add_identities ys (add_identities xs m)
unfolding add_identities
add_identities-append [] ys m = refl
add_identities-append (x ∷ xs) ys m = add_identities-append xs ys _

filter-append :
    (org : String) (xs ys : List Listed)
    → filter (is_member org) (xs ++ ys) ≡ filter (is_member org) xs ++ filter (is_member org) ys
filter-append org [] ys = refl
filter-append org (x ∷ xs) ys = ground (arith, filter-append org xs ys)

append_regroup : (xs ys zs : List Listed) → (xs ++ ys) ++ zs ≡ xs ++ (ys ++ zs)
append_regroup [] ys zs = refl
append_regroup (x ∷ xs) ys zs = ap (λ r. x ∷ r) (append_regroup xs ys zs)

-- the token of the page is one of those before
abbrev IsOne : List String → Option String → Type 0
IsOne before none = Unit
IsOne before (some token) = includes before token ≡ true

same_token-IsOne :
    (before : List String) (token : Option String) (next : String)
    → IsOne before token
    → includes before next ≡ false
    → same_token token next ≡ false
same_token-IsOne before none next h k = refl
same_token-IsOne before (some t) next h k = elim (Bool-cases (t == next)) [
  | inl e ↦ let same : t ≡ next = (eq_iff t next).0 e in cc
  | inr e ↦ e
]

includes_head : (t : String) (ts : List String) → includes (t ∷ ts) t ≡ true
includes_head t ts = ground (arith, eq_iff t t)

module _ (fetch : Option String → Result Failure Page) where
  pub walk_bindings-Serves :
      {before : List String} {token : Option String} {pages : ℕ} {xs : List Listed}
      → Serves fetch before token pages xs
      → (fuel : ℕ) (m : Entries Binding) → pages ≤ fuel
      → IsOne before token
      → walk_bindings fetch fuel token m ≡ ok (add_identities xs m)
  unfolding walk_bindings next_token
  walk_bindings-Serves (last p f e) zero m h one = absurd (omega arith)
  walk_bindings-Serves (last p f e) (suc fuel) m h one =
      rw (f, walk_bindings) (rw (e, next_token) refl)
  walk_bindings-Serves (more p next f e full new rest) zero m h one = absurd (omega arith)
  walk_bindings-Serves {before} {token} (more p next f e full new rest) (suc fuel) m h one =
      rw (f, walk_bindings)
        (rw (e, next_token)
          (rw (same_token-IsOne before token next one new, full)
            (walk_bindings-Serves rest fuel (add_identities p.identities m) (omega arith)
                (includes_head next before)
              ∙ sym (ap ok (add_identities-append p.identities _ m)))))

  pub collect_members-Serves :
      {before : List String} {token : Option String} {pages : ℕ} {xs : List Listed}
      → Serves fetch before token pages xs
      → (org : String) (fuel : ℕ) (found : List Listed) → pages ≤ fuel
      → collect_members fetch org fuel token before found ≡ ok (found ++ filter (is_member org) xs)
  unfolding collect_members unseen_token
  collect_members-Serves (last p f e) org zero found h = absurd (omega arith)
  collect_members-Serves (last p f e) org (suc fuel) found h =
      rw (f, collect_members) (rw (e, unseen_token) refl)
  collect_members-Serves (more p next f e full new rest) org zero found h = absurd (omega arith)
  collect_members-Serves (more p next f e full new rest) org (suc fuel) found h =
      rw (f, collect_members)
        (rw (e, unseen_token)
          (rw (full, new)
            (collect_members-Serves rest org fuel _ (omega arith)
              ∙ ap ok (
                  append_regroup found _ _
                  ∙ ap (λ r. found ++ r) (sym (filter-append org p.identities _))))))

-- ===== src/ScimTokens/Verified.antt =====
-- What it takes for a token to be accepted: the lemmas on `verify` of
-- src/services/scim-token.service.ts.
use jinbe.Prelude.{
  ℕ, String, ◌≡◌, refl, sym, ap, subst, ◌∙◌, inl, inr, true, ◌==◌, eq_iff, Bool-cases, Option,
  Option-cases, none, some, List, [], ◌∷◌, Entries, All, same_number, arith,
}
use jinbe.Redis.{Redis}
use jinbe.ScimTokens.{
  ScimTokenRecord, Crypto, Tokens, same_bytes, safe_equal_hex, match_record, scan, find_token,
  embedded_id,
}

same_bytes-eq : (xs ys : List ℕ) → same_bytes xs ys ≡ true → xs ≡ ys
same_bytes-eq [] [] h = refl
same_bytes-eq [] (y ∷ ys) h = cc
same_bytes-eq (x ∷ xs) [] h = cc
same_bytes-eq (x ∷ xs) (y ∷ ys) h = ground (arith, same_bytes-eq xs ys)

same_bytes_refl : (xs : List ℕ) → same_bytes xs xs ≡ true
same_bytes_refl [] = refl
same_bytes_refl (x ∷ xs) = ground (arith, same_bytes_refl xs)

same_number_refl : (n : ℕ) → same_number n n ≡ true
same_number_refl n = ground arith

module _ (redis : Redis) (crypto : Crypto) where
  safe_equal_hex-eq :
      (a b : String)
      → safe_equal_hex redis crypto a b ≡ true
      → crypto.from_hex a ≡ crypto.from_hex b
  unfolding safe_equal_hex
  safe_equal_hex-eq a b h = elim (Bool-cases (same_bytes (crypto.from_hex a) (crypto.from_hex b))) [
    | inl e ↦ same_bytes-eq _ _ e
    | inr e ↦ ground arith
  ]

  pub safe_equal_hex-digests :
      (a b : String)
      → safe_equal_hex redis crypto (crypto.sha256_hex a) (crypto.sha256_hex b)
        ≡ (crypto.sha256_hex a == crypto.sha256_hex b)
  unfolding safe_equal_hex
  safe_equal_hex-digests a b = elim (Bool-cases (crypto.sha256_hex a == crypto.sha256_hex b)) [
    | inl e ↦
        rw (e, (eq_iff (crypto.sha256_hex a) (crypto.sha256_hex b)).0 e)
          (rw (same_number_refl _, crypto.from_hex-full b, same_bytes_refl _) refl)
    | inr e ↦
        elim (Bool-cases
          (safe_equal_hex redis crypto (crypto.sha256_hex a) (crypto.sha256_hex b))) [
            | inl accepted ↦
                let same : crypto.sha256_hex a ≡ crypto.sha256_hex b =
                  crypto.from_hex-digest a b (safe_equal_hex-eq _ _ accepted) in
                cc ((eq_iff (crypto.sha256_hex a) (crypto.sha256_hex b)).1 same)
            | inr refused ↦ refused ∙ sym e
          ]
  ]

  -- the entry of the store that is found, for the token
  abbrev pub IsFound : String → Tokens redis crypto → String × ScimTokenRecord → Type 0
  IsFound token s (id, r) =
      (redis.hget (Option ScimTokenRecord) s id ≡ some (some r))
      × (crypto.from_hex (crypto.sha256_hex token) ≡ crypto.from_hex r.sha256)

  pub match_record-eq :
      (presented id : String) (raw : Option ScimTokenRecord) (j : String) (r : ScimTokenRecord)
      → match_record redis crypto presented id raw ≡ some (j, r)
      → (id ≡ j) × (raw ≡ some r) × (crypto.from_hex presented ≡ crypto.from_hex r.sha256)
  match_record-eq presented id none j r h = cc
  match_record-eq presented id (some q) j r h =
      elim (Bool-cases (safe_equal_hex redis crypto presented q.sha256)) [
        | inl e ↦
            let same : ◌≡◌ {A = Option (String × ScimTokenRecord)} (some (id, q)) (some (j, r)) =
              rw e at h in
            let record_same : q ≡ r = cc in
            (
              cc,
              cc,
              safe_equal_hex-eq presented q.sha256 e
                  ∙ ap (λ (x : ScimTokenRecord). crypto.from_hex x.sha256) record_same,
            )
        | inr e ↦ cc (rw e at h)
      ]

  match_record-IsFound :
      (token : String) (s : Tokens redis crypto) (id : String) (raw : Option ScimTokenRecord)
      (f : String × ScimTokenRecord)
      → redis.hget (Option ScimTokenRecord) s id ≡ some raw
      → match_record redis crypto (crypto.sha256_hex token) id raw ≡ some f
      → IsFound token s f
  match_record-IsFound token s id raw (j, r) here matched =
      let (a, b, c) = match_record-eq (crypto.sha256_hex token) id raw j r matched in
      (subst (λ x. redis.hget (Option ScimTokenRecord) s x ≡ some (some r)) a (here ∙ ap some b), c)

  scan-IsFound :
      (token : String) (s : Tokens redis crypto) (es : Entries (Option ScimTokenRecord))
      (found : Option (String × ScimTokenRecord)) (f : String × ScimTokenRecord)
      → All (λ (k, v). redis.hget (Option ScimTokenRecord) s k ≡ some v) es
      → ((g : String × ScimTokenRecord) → found ≡ some g → IsFound token s g)
      → scan redis crypto (crypto.sha256_hex token) es found ≡ some f
      → IsFound token s f
  unfolding scan
  scan-IsFound token s [] found f h k e = k f e
  scan-IsFound token s ((id, raw) ∷ es) found f (here, h) k e =
      elim (Option-cases (match_record redis crypto (crypto.sha256_hex token) id raw)) [
        | inl no_match ↦ scan-IsFound token s es found f h k (rw no_match at e)
        | inr (g, matched) ↦
            scan-IsFound token s es (some g) f h
              (λ g' e'. match_record-IsFound token s id raw g' here (matched ∙ e'))
              (rw matched at e)
      ]

  -- An accepted token is one of which the store has the digest, under the id that is answered.
  pub find_token-IsFound :
      (token : String) (s : Tokens redis crypto) (f : String × ScimTokenRecord)
      → find_token redis crypto token s ≡ some f
      → IsFound token s f
  unfolding find_token
  find_token-IsFound token s f h = elim (Bool-cases (token == "")) [
    | inl e ↦ cc (rw e at h)
    | inr e ↦ elim (Option-cases (embedded_id token)) [
      | inl opaque ↦
          scan-IsFound token s (redis.hgetall (Option ScimTokenRecord) s) none f
            (redis.hgetall-hget (Option ScimTokenRecord) s) (λ g e'. cc) (rw (e, opaque) at h)
      | inr (id, named) ↦ elim (Option-cases (redis.hget (Option ScimTokenRecord) s id)) [
        | inl absent ↦ cc (rw (e, named, absent) at h)
        | inr (raw, here) ↦ match_record-IsFound token s id raw f here (rw (e, named, here) at h)
      ]
    ]
  ]

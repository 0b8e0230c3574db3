-- ===== src/ScimTokens/Refinement.antt =====
-- The store of src/services/scim-token.service.ts implements the table of the issued tokens, of which it
-- keeps no more than the digests.
use jinbe.Prelude.{
  String, ◌≡◌, refl, sym, ap, subst, ◌∙◌, inl, inr, ◌==◌, eq_iff, Bool-cases, Option, Option-cases,
  none, some, is_some, List, [], ◌∷◌, All,
}
use jinbe.Redis.{Redis}
use jinbe.ScimTokens.{
  ScimTokenRecord, ScimTokenPrincipal, Crypto, Tokens, embedded_id, format_token, mint, verify,
  revoke, find_token, touch, principal, match_record, safe_equal_hex, new_record, ◌>>=◌,
}
use jinbe.ScimTokens.Format.{embedded_id-empty}
use jinbe.ScimTokens.Verified.{safe_equal_hex-digests, find_token-IsFound}
use jinbe.ScimTokens.Table.{
  Request, issue, present, withdraw, Answer, presented, withdrawn, Table, put, Embeds, serve,
  serve_all, recognised, expect, expect_all, seen, kept, Represents,
}

module _ (redis : Redis) (crypto : Crypto) where
  abbrev map_principal : Option (String × ScimTokenRecord) → Option ScimTokenPrincipal
  map_principal none = none
  map_principal (some f) = some (principal redis crypto f)

  match_record-recognised :
      (token id : String) (raw : Option (Option ScimTokenRecord)) (entry : Option (String × String))
      → seen raw ≡ kept crypto entry
      → map_principal (raw >>= λ r. match_record redis crypto (crypto.sha256_hex token) id r)
        ≡ recognised crypto token id entry
  match_record-recognised token id none none h = refl
  match_record-recognised token id none (some e) h = cc
  match_record-recognised token id (some none) none h = cc
  match_record-recognised token id (some none) (some e) h = cc
  match_record-recognised token id (some (some r)) none h = cc
  match_record-recognised token id (some (some r)) (some (t, label)) h =
      let digest : r.sha256 ≡ crypto.sha256_hex t = cc in
      let same_label : r.label ≡ label = cc in
      let test : safe_equal_hex redis crypto (crypto.sha256_hex token) r.sha256
          ≡ (crypto.sha256_hex token == crypto.sha256_hex t) =
        subst
          (λ d.
            safe_equal_hex redis crypto (crypto.sha256_hex token) d
            ≡ (crypto.sha256_hex token == crypto.sha256_hex t))
          (sym digest) (safe_equal_hex-digests redis crypto token t) in
      elim (Bool-cases (crypto.sha256_hex token == crypto.sha256_hex t)) [
        | inl e ↦ rw (test ∙ e, e) (ap (λ l. some (record { token_id = id; label = l })) same_label)
        | inr e ↦ rw (test ∙ e, e) refl
      ]

  pub find_token-embedded :
      (token id : String) (s : Tokens redis crypto)
      → embedded_id token ≡ some id
      → find_token redis crypto token s ≡ (
          redis.hget (Option ScimTokenRecord) s id >>= λ r.
          match_record redis crypto (crypto.sha256_hex token) id r)
  unfolding find_token
  find_token-embedded token id s h = elim (Bool-cases (token == "")) [
    | inl e ↦
        let none_there : embedded_id token ≡ none =
          subst (λ x. embedded_id x ≡ none) (sym ((eq_iff token "").0 e)) embedded_id-empty in
        cc
    | inr e ↦ rw (e, h) refl
  ]

  Represents-hset :
      (s : Tokens redis crypto) (v : Table) (id : String) (raw : Option ScimTokenRecord)
      (entry : Option (String × String))
      → seen (some raw) ≡ kept crypto entry
      → Represents redis crypto s v
      → Represents redis crypto (redis.hset (Option ScimTokenRecord) s id raw) (put id entry v)
  Represents-hset s v id raw entry same rep j =
      rw (redis.hget-hset (Option ScimTokenRecord) s id j raw)
        (elim (Bool-cases (id == j)) [ inl e ↦ rw e same | inr e ↦ rw e (rep j) ])

  Represents-hdel :
      (s : Tokens redis crypto) (v : Table) (id : String)
      → Represents redis crypto s v
      → Represents redis crypto (redis.hdel (Option ScimTokenRecord) s id) (put id none v)
  Represents-hdel s v id rep j =
      rw (redis.hget-hdel (Option ScimTokenRecord) s id j)
        (elim (Bool-cases (id == j)) [ inl e ↦ rw e refl | inr e ↦ rw e (rep j) ])

  -- the write of `verify` changes nothing that can be seen
  Represents-touch :
      (s : Tokens redis crypto) (v : Table) (now id : String) (r : ScimTokenRecord)
      → redis.hget (Option ScimTokenRecord) s id ≡ some (some r)
      → Represents redis crypto s v
      → Represents redis crypto (touch redis crypto now (id, r) s) v
  unfolding touch
  Represents-touch s v now id r here rep j =
      rw
        (redis.hget-hset (Option ScimTokenRecord) s id j
          (some (record r { last_used_at = some now })))
        (elim (Bool-cases (id == j)) [
          | inl e ↦ rw e (
              let found : redis.hget (Option ScimTokenRecord) s j ≡ some (some r) =
                subst (λ x. redis.hget (Option ScimTokenRecord) s x ≡ some (some r))
                  ((eq_iff id j).0 e) here in
              ap seen (sym found) ∙ rep j)
          | inr e ↦ rw e (rep j)
        ])

  abbrev Agrees : Answer × Tokens redis crypto → Answer × Table → Type 0
  Agrees (a, s) (b, v) = (a ≡ b) × Represents redis crypto s v

  present-Agrees :
      (now token : String) (s : Tokens redis crypto) (v : Table)
      → Embeds (present now token)
      → Represents redis crypto s v
      → Agrees (serve redis crypto (present now token) s) (expect crypto (present now token) v)
  unfolding serve expect verify
  present-Agrees now token s v h rep = elim (Option-cases (embedded_id token)) [
    | inl e ↦ cc (rw e at h)
    | inr (id, e) ↦
        let answer : map_principal (find_token redis crypto token s)
            ≡ recognised crypto token id (v id) =
          rw (find_token-embedded token id s e) (
            match_record-recognised token id (redis.hget (Option ScimTokenRecord) s id) (v id)
              (rep id)) in
        rw e (elim (Option-cases (find_token redis crypto token s)) [
          | inl absent ↦ rw absent (ap presented (rw absent at answer), rep)
          | inr ((j, r), found) ↦ rw found (
            ap presented (rw found at answer),
            Represents-touch s v now j r (find_token-IsFound redis crypto token s (j, r) found).0
                rep,
          )
        ])
  ]

  is_some-represented :
      (raw : Option (Option ScimTokenRecord)) (entry : Option (String × String))
      → seen raw ≡ kept crypto entry
      → is_some raw ≡ is_some entry
  is_some-represented none none h = refl
  is_some-represented none (some e) h = cc
  is_some-represented (some none) none h = cc
  is_some-represented (some none) (some e) h = cc
  is_some-represented (some (some r)) none h = cc
  is_some-represented (some (some r)) (some e) h = refl

  serve-Agrees :
      (r : Request) (s : Tokens redis crypto) (v : Table)
      → Embeds r
      → Represents redis crypto s v
      → Agrees (serve redis crypto r s) (expect crypto r v)
  unfolding serve expect mint revoke new_record
  serve-Agrees (issue id secret label created_by now) s v h rep =
      (refl, Represents-hset s v id _ (some (format_token id secret, label)) refl rep)
  serve-Agrees (present now token) s v h rep = present-Agrees now token s v h rep
  serve-Agrees (withdraw id) s v h rep =
      (ap withdrawn (is_some-represented _ (v id) (rep id)), Represents-hdel s v id rep)

  run-Agrees :
      (rs : List Request) (s : Tokens redis crypto) (v : Table)
      → All Embeds rs
      → Represents redis crypto s v
      → ((serve_all redis crypto rs s).0 ≡ (expect_all crypto rs v).0)
        × Represents redis crypto (serve_all redis crypto rs s).1 (expect_all crypto rs v).1
  unfolding serve_all expect_all
  run-Agrees [] s v h rep = (refl, rep)
  run-Agrees (r ∷ rs) s v (h, hs) rep =
      let (a, rep') = serve-Agrees r s v h rep in
      let (b, rep'') = run-Agrees rs (serve redis crypto r s).1 (expect crypto r v).1 hs rep' in
      (cc, rep'')

  -- Served on an empty store, any requests whose presented tokens embed an id get the answers that the
  -- table of issued tokens gives, and leave a store that has of each of its tokens the digest and the
  -- label, and of no other id a token.
  pub serve_all-refines :
      (rs : List Request)
      → All Embeds rs
      → ((serve_all redis crypto rs (redis.empty (Option ScimTokenRecord))).0
          ≡ (expect_all crypto rs (λ id. none)).0)
        × Represents redis crypto
            (serve_all redis crypto rs (redis.empty (Option ScimTokenRecord))).1
            (expect_all crypto rs (λ id. none)).1
  serve_all-refines rs h =
      run-Agrees rs (redis.empty (Option ScimTokenRecord)) (λ id. none) h
        (λ j. ap seen (redis.hget-empty (Option ScimTokenRecord) j))

-- ===== src/ScimTokens/Revival.antt =====
-- The life of a token of src/services/scim-token.service.ts, and what a revocation does that comes
-- between the read of `verify` and the write that it leaves behind.
use jinbe.Prelude.{
  String, ◌≡◌, refl, sym, ◌∙◌, inl, inr, true, eq_refl, Bool-cases, Option, none, some,
}
use jinbe.Redis.{Redis}
use jinbe.ScimTokens.{
  ScimTokenRecord, Crypto, Tokens, embedded_id, format_token, mint, verify, revoke, find_token,
  touch, principal, match_record, safe_equal_hex, new_record,
}
use jinbe.ScimTokens.Format.{IsHex, embedded_id-format_token}
use jinbe.ScimTokens.Verified.{safe_equal_hex-digests, find_token-IsFound}
use jinbe.ScimTokens.Refinement.{find_token-embedded}

module _ (redis : Redis) (crypto : Crypto) where
  -- A token that is minted is accepted under its id and label; a token that embeds
  -- the id is refused right after the id is revoked.
  pub verify-mint :
      (id secret label now later : String) (by : Option String) (s u : Tokens redis crypto)
      (token : String)
      → IsHex 16 id
      → IsHex 64 secret
      → embedded_id token ≡ some id
      → ((verify redis crypto later
            (mint redis crypto id secret label by now s).0
            (mint redis crypto id secret label by now s).1).0
          ≡ some (record { token_id = id; label = label }))
        × ((verify redis crypto later token (revoke redis crypto id u).1).0 ≡ none)
  unfolding verify mint revoke new_record
  verify-mint id secret label now later by s u token h k e = (
    rw
        (find_token-embedded redis crypto (format_token id secret) id _
          (embedded_id-format_token id secret h k))
        (rw (redis.hget-hset (Option ScimTokenRecord) s id id) (
          rw (eq_refl id) (
            rw
              (
                safe_equal_hex-digests redis crypto (format_token id secret)
                    (format_token id secret),
                eq_refl,
              )
              refl))),
    rw (find_token-embedded redis crypto token id _ e)
        (rw (redis.hget-hdel (Option ScimTokenRecord) u id id) (rw (eq_refl id) refl)),
  )

  -- Where a token that embeds an id is accepted, and its id is revoked before the write of that
  -- verification arrives: the revocation reports its success and the token is refused, and after the
  -- write it is accepted again.
  pub verify-touch-revoke :
      (token id now later : String) (r : ScimTokenRecord) (s : Tokens redis crypto)
      → embedded_id token ≡ some id
      → find_token redis crypto token s ≡ some (id, r)
      → ((revoke redis crypto id s).0 ≡ true)
        × (find_token redis crypto token (revoke redis crypto id s).1 ≡ none)
        × ((verify redis crypto later token
              (touch redis crypto now (id, r) (revoke redis crypto id s).1)).0
            ≡ some (principal redis crypto (id, r)))
  unfolding verify revoke touch
  verify-touch-revoke token id now later r s e found =
      let (here, digest) = find_token-IsFound redis crypto token s (id, r) found in
      let matched : match_record redis crypto (crypto.sha256_hex token) id (some r) ≡ some (id, r) =
        rw here at (sym (find_token-embedded redis crypto token id s e) ∙ found) in
      let accepted : safe_equal_hex redis crypto (crypto.sha256_hex token) r.sha256 ≡ true =
        elim (Bool-cases (safe_equal_hex redis crypto (crypto.sha256_hex token) r.sha256)) [
          | inl same ↦ same
          | inr other ↦ cc (rw other at matched)
        ] in
      (
        rw here refl,
        rw (find_token-embedded redis crypto token id _ e)
            (rw (redis.hget-hdel (Option ScimTokenRecord) s id id) (rw (eq_refl id) refl)),
        rw (find_token-embedded redis crypto token id _ e) (
            rw
              (redis.hget-hset (Option ScimTokenRecord) (redis.hdel (Option ScimTokenRecord) s id)
                id id)
              (rw (eq_refl id) rw accepted refl)),
      )

-- ===== src/ScimTokens/Tests.antt =====
-- Tests of the tokens of SCIM clients, and their theorems at concrete tokens.
use jinbe.Prelude.{
  ℕ, String, ◌≡◌, refl, true, Option, none, some, List, [], ◌∷◌, ap, append, is_some, arith,
}
use Prim.Native.Char.{code}
use text.Mathlib.TextEquality.{Char-path}
use jinbe.Samples.{redis}
use jinbe.ScimTokens.{
  ScimTokenRecord, new_record, principal, Crypto, mint, verify, revoke, find_token, touch,
  embedded_id, format_token, strip_start, take_hex, safe_equal_hex,
}
use jinbe.ScimTokens.Format.{IsHex, embedded_id-format_token}
use jinbe.ScimTokens.Table.{Request, issue, present, withdraw, serve_all, expect_all, Represents}
use jinbe.ScimTokens.Refinement.{serve_all-refines}
use jinbe.ScimTokens.Revival.{verify-mint, verify-touch-revoke}

abbrev id : String
id = "0123456789abcdef"

abbrev secret : String
secret = "00112233445566778899aabbccddeeff00112233445566778899aabbccddeeff"

-- a digest that is the text itself behind a digit, read as its code points
abbrev codes : String → List ℕ
codes String.[] = []
codes (String.◌∷◌ c s) = code c ∷ codes s

codes-eq : (a b : String) → codes a ≡ codes b → a ≡ b
codes-eq String.[] String.[] h = refl
codes-eq String.[] (String.◌∷◌ d b) h = cc
codes-eq (String.◌∷◌ c a) String.[] h = cc
codes-eq (String.◌∷◌ c a) (String.◌∷◌ d b) h =
    let same : c ≡ d = Char-path c d (cc) in let rest : a ≡ b = codes-eq a b (cc) in cc

abbrev crypto : Crypto
crypto = record {
  sha256_hex = λ s. append "0" s;
  from_hex = codes;
  from_hex-digest = λ a b h. codes-eq (append "0" a) (append "0" b) h;
  from_hex-full = λ a. refl;
}

id-IsHex : IsHex 16 id
id-IsHex = ground arith

secret-IsHex : IsHex 64 secret
secret-IsHex = ground arith

abbrev requests : List Request
requests =
    issue id secret "okta" none "2026-01-01"
    ∷ present "2026-01-02" (format_token id secret)
    ∷ withdraw id
    ∷ present "2026-01-03" (format_token id secret)
    ∷ []

serve_all-refines_example :
    ((serve_all redis crypto requests []).0 ≡ (expect_all crypto requests (λ j. none)).0)
    × Represents redis crypto
        (serve_all redis crypto requests []).1
        (expect_all crypto requests (λ j. none)).1
serve_all-refines_example = serve_all-refines redis crypto requests (
  tt,
  (
    ap is_some (embedded_id-format_token id secret id-IsHex secret-IsHex),
    (tt, (ap is_some (embedded_id-format_token id secret id-IsHex secret-IsHex), tt)),
  ),
)

abbrev someone : Option String
someone = some "root@x"

verify-mint_example :
    ((verify redis crypto "later"
        (mint redis crypto id secret "okta" someone "now" []).0
        (mint redis crypto id secret "okta" someone "now" []).1).0
      ≡ some (record { token_id = id; label = "okta" }))
    × ((verify redis crypto "later" (format_token id secret) (revoke redis crypto id []).1).0
        ≡ none)
verify-mint_example =
    verify-mint redis crypto id secret "okta" "now" "later" someone [] [] (format_token id secret)
      id-IsHex secret-IsHex (embedded_id-format_token id secret id-IsHex secret-IsHex)

-- the store after the token is minted, and the record of it
abbrev stored : ScimTokenRecord
stored = new_record redis crypto (format_token id secret) "okta" none "now"

verify-touch-revoke_example :
    ((revoke redis crypto id ((id, some stored) ∷ [])).0 ≡ true)
    × (find_token redis crypto
          (format_token id secret)
          (revoke redis crypto id ((id, some stored) ∷ [])).1
        ≡ none)
    × ((verify redis crypto "later" (format_token id secret) (
          touch redis crypto "now"
            (id, stored)
            (revoke redis crypto id ((id, some stored) ∷ [])).1)).0
        ≡ some (principal redis crypto (id, stored)))
unfolding find_token new_record safe_equal_hex format_token embedded_id strip_start take_hex
verify-touch-revoke_example =
    verify-touch-revoke redis crypto (format_token id secret) id "now" "later" stored
      ((id, some stored) ∷ []) (embedded_id-format_token id secret id-IsHex secret-IsHex) refl

-- ===== src/ScimTokens/Table.antt =====
-- What the service of src/services/scim-token.service.ts promises: a table of the tokens that are issued
-- and not withdrawn, and the answers that it gives to a sequence of requests.
use jinbe.Prelude.{
  String, ◌≡◌, Bool, true, ◌==◌, if◌then◌else◌, Option, none, some, is_some, List, [], ◌∷◌,
}
use jinbe.Redis.{Redis}
use jinbe.ScimTokens.{
  ScimTokenRecord, ScimTokenPrincipal, Crypto, Tokens, embedded_id, format_token, mint, verify,
  revoke, ◌>>=◌,
}

pub data Request : Type 0 where
  issue : String → String → String → Option String → String → Request
  present : String → String → Request
  withdraw : String → Request

pub data Answer : Type 0 where
  issued : String → Answer
  presented : Option ScimTokenPrincipal → Answer
  withdrawn : Bool → Answer

-- the token of an id, and its label
abbrev pub Table : Type 0
Table = String → Option (String × String)

abbrev pub put : String → Option (String × String) → Table → Table
put id entry v j = if id == j then entry else v j

-- a presented token embeds an id, as all do that the service issues
abbrev pub Embeds : Request → Type 0
Embeds (present now token) = is_some (embedded_id token) ≡ true
Embeds (issue id secret label created_by now) = Unit
Embeds (withdraw id) = Unit

abbrev pub seen : Option (Option ScimTokenRecord) → Option (Option (String × String))
seen none = none
seen (some none) = some none
seen (some (some r)) = some (some (r.sha256, r.label))

module _ (crypto : Crypto) where
  -- a token is recognised by its digest
  abbrev pub recognised : String → String → Option (String × String) → Option ScimTokenPrincipal
  recognised token id none = none
  recognised token id (some (t, label)) =
      if crypto.sha256_hex token == crypto.sha256_hex t
      then some (record { token_id = id; label = label })
      else none

  unfoldable pub expect : Request → Table → Answer × Table
  expect (issue id secret label created_by now) v =
      (issued (format_token id secret), put id (some (format_token id secret, label)) v)
  expect (present now token) v =
      (presented (embedded_id token >>= λ id. recognised token id (v id)), v)
  expect (withdraw id) v = (withdrawn (is_some (v id)), put id none v)

  unfoldable pub expect_all : List Request → Table → List Answer × Table
  expect_all [] v = ([], v)
  expect_all (r ∷ rs) v =
      let (a, v') = expect r v in let (answers, v'') = expect_all rs v' in (a ∷ answers, v'')

  abbrev pub kept : Option (String × String) → Option (Option (String × String))
  kept none = none
  kept (some (t, label)) = some (some (crypto.sha256_hex t, label))

module _ (redis : Redis) (crypto : Crypto) where
  unfoldable pub serve : Request → Tokens redis crypto → Answer × Tokens redis crypto
  serve (issue id secret label created_by now) s =
      let (token, s') = mint redis crypto id secret label created_by now s in (issued token, s')
  serve (present now token) s =
      let (who, s') = verify redis crypto now token s in (presented who, s')
  serve (withdraw id) s = let (deleted, s') = revoke redis crypto id s in (withdrawn deleted, s')

  unfoldable pub serve_all : List Request → Tokens redis crypto → List Answer × Tokens redis crypto
  serve_all [] s = ([], s)
  serve_all (r ∷ rs) s =
      let (a, s') = serve r s in let (answers, s'') = serve_all rs s' in (a ∷ answers, s'')

  -- The store has the digests of the tokens of the table, with their labels, and nothing else.
  abbrev pub Represents : Tokens redis crypto → Table → Type 0
  Represents s v = (j : String) → seen (redis.hget (Option ScimTokenRecord) s j) ≡ kept crypto (v j)

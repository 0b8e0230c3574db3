-- ===== src/ScimTokens.antt =====
-- src/services/scim-token.service.ts: the bearer tokens of SCIM clients, in the hash
-- rbac:scim:tokens. The hash function and the reading of hexadecimal text are those of node:crypto and
-- Buffer, and the random texts of a new token are arguments. A stored value that is no token record
-- stands as `none`.
pub mod Format
pub mod Verified
pub mod Table
pub mod Refinement
pub mod Revival
mod Tests
use Prim.Native.Char.{code}
use jinbe.Prelude.{
  ℕ, zero, suc, String, ◌≡◌, Bool, true, false, ◌&&◌, ◌||◌, ◌==◌, if◌then◌else◌, Option, none, some,
  List, [], ◌∷◌, Entries, length, is_empty, is_some, same_number, leb, append,
}
use jinbe.Redis.{Redis}

pub record ScimTokenRecord : Type 0 where
  pub sha256 : String
  pub label : String
  pub created_by : Option String
  pub created_at : String
  pub last_used_at : Option String

pub record ScimTokenView : Type 0 where
  pub label : String
  pub created_by : Option String
  pub created_at : String
  pub last_used_at : Option String

abbrev pub view_of : ScimTokenRecord → ScimTokenView
view_of r = record {
  label = r.label;
  created_by = r.created_by;
  created_at = r.created_at;
  last_used_at = r.last_used_at;
}

pub record ScimTokenPrincipal : Type 0 where
  pub token_id : String
  pub label : String

-- `createHash('sha256')…digest('hex')` and `Buffer.from(_, 'hex')`: a digest is a full reading of its
-- bytes
pub record Crypto : Type 0 where
  pub sha256_hex : String → String
  pub from_hex : String → List ℕ
  pub from_hex-digest :
      (a b : String)
      → from_hex (sha256_hex a) ≡ from_hex (sha256_hex b)
      → sha256_hex a ≡ sha256_hex b
  pub from_hex-full : (a : String) → is_empty (from_hex (sha256_hex a)) ≡ false

-- `timingSafeEqual`
abbrev pub same_bytes : List ℕ → List ℕ → Bool
same_bytes [] [] = true
same_bytes [] (y ∷ ys) = false
same_bytes (x ∷ xs) [] = false
same_bytes (x ∷ xs) (y ∷ ys) = same_number x y && same_bytes xs ys

-- TOKEN_RE, part by part
abbrev pub is_hex : ℕ → Bool
is_hex c = (leb b'0' c && leb c b'9') || (leb b'a' c && leb c b'f')

unfoldable pub strip_start : String → String → Option String
strip_start String.[] s = some s
strip_start (String.◌∷◌ c p) String.[] = none
strip_start (String.◌∷◌ c p) (String.◌∷◌ d s) =
    let rest = strip_start p s in if same_number (code c) (code d) then rest else none

unfoldable pub take_hex : ℕ → String → Option (String × String)
take_hex zero s = some (String.[], s)
take_hex (suc n) String.[] = none
take_hex (suc n) (String.◌∷◌ c s) =
    let rest = take_hex n s in
    if is_hex (code c)
    then elim rest [ none ↦ none | some (h, t) ↦ some (String.◌∷◌ c h, t) ]
    else none

infixl 5 ◌>>=◌
abbrev pub ◌>>=◌ {ℓ κ} : {A : Type ℓ} {B : Type κ} → Option A → (A → Option B) → Option B
none >>= f = none
some a >>= f = f a

abbrev pub at_end : String → String → Option String
at_end id String.[] = some id
at_end id (String.◌∷◌ c s) = none

-- `TOKEN_RE.exec(token)`, the id that it captures
unfoldable pub embedded_id : String → Option String
embedded_id token = do
  tail ← strip_start "scim_" token
  (id, rest) ← take_hex 16 tail
  secret ← strip_start "_" rest
  (_, end) ← take_hex 64 secret
  at_end id end

unfoldable pub format_token : String → String → String
format_token token_id secret = append "scim_" (append token_id (append "_" secret))

-- `list`: the entries that can be read, without their digests
abbrev pub shown_tokens : Entries (Option ScimTokenRecord) → Entries ScimTokenView
shown_tokens [] = []
shown_tokens ((id, none) ∷ rest) = shown_tokens rest
shown_tokens ((id, some r) ∷ rest) = (id, view_of r) ∷ shown_tokens rest

module _ (redis : Redis) (crypto : Crypto) where
  abbrev pub Tokens : Type 0
  Tokens = redis.Hash (Option ScimTokenRecord)

  -- `safeEqualHex`
  unfoldable pub safe_equal_hex : String → String → Bool
  safe_equal_hex a b =
      if same_number (length (crypto.from_hex a)) (length (crypto.from_hex b))
      then (if is_empty (crypto.from_hex a)
          then false
          else same_bytes (crypto.from_hex a) (crypto.from_hex b))
      else false

  unfoldable pub new_record : String → String → Option String → String → ScimTokenRecord
  new_record token label created_by now = record {
    sha256 = crypto.sha256_hex token;
    label = label;
    created_by = created_by;
    created_at = now;
    last_used_at = none;
  }

  -- the token that is shown once, and the store
  unfoldable pub mint : String → String → String → Option String → String → Tokens → String × Tokens
  unfolding format_token
  mint token_id secret label created_by now s =
      let token = format_token token_id secret in
      (
        token,
        redis.hset (Option ScimTokenRecord) s token_id
            (some (new_record token label created_by now)),
      )

  -- the record, if its digest is the one presented
  abbrev pub match_record :
      String → String → Option ScimTokenRecord → Option (String × ScimTokenRecord)
  match_record presented id none = none
  match_record presented id (some r) =
      if safe_equal_hex presented r.sha256 then some (id, r) else none

  -- the last entry that matches
  unfoldable pub scan :
      String
      → Entries (Option ScimTokenRecord)
      → Option (String × ScimTokenRecord)
      → Option (String × ScimTokenRecord)
  scan presented [] found = found
  scan presented ((id, raw) ∷ rest) found =
      scan presented rest (elim (match_record presented id raw) [ none ↦ found | some f ↦ some f ])

  -- `verify` up to its answer: the entry that matches
  unfoldable pub find_token : String → Tokens → Option (String × ScimTokenRecord)
  find_token token s =
      let presented = crypto.sha256_hex token in
      if token == "" then none else elim (embedded_id token) [
        | some id ↦
            (redis.hget (Option ScimTokenRecord) s id >>= λ raw. match_record presented id raw)
        | none ↦ scan presented (redis.hgetall (Option ScimTokenRecord) s) none
      ]

  -- the write that `verify` leaves behind, of the record that it has read
  unfoldable pub touch : String → String × ScimTokenRecord → Tokens → Tokens
  touch now (id, r) s =
      redis.hset (Option ScimTokenRecord) s id (some (record r { last_used_at = some now }))

  abbrev pub principal : String × ScimTokenRecord → ScimTokenPrincipal
  principal (id, r) = record { token_id = id; label = r.label }

  abbrev pub answered :
      String → Option (String × ScimTokenRecord) → Tokens → Option ScimTokenPrincipal × Tokens
  answered now none s = (none, s)
  answered now (some f) s = (some (principal f), touch now f s)

  -- `verify` with its write, where nothing comes between
  unfoldable pub verify : String → String → Tokens → Option ScimTokenPrincipal × Tokens
  verify now token s = answered now (find_token token s) s

  unfoldable pub revoke : String → Tokens → Bool × Tokens
  revoke id s =
      (is_some (redis.hget (Option ScimTokenRecord) s id), redis.hdel (Option ScimTokenRecord) s id)

  unfoldable pub list : Tokens → Entries ScimTokenView
  list s = shown_tokens (redis.hgetall (Option ScimTokenRecord) s)

-- ===== src/ScimTokens/Format.antt =====
-- The text of a token, and the expression that finds its id again: TOKEN_RE of
-- src/services/scim-token.service.ts.
use Prim.Native.Char.{code}
use jinbe.Prelude.{true, ℕ, zero, suc, String, ◌≡◌, refl, subst, none, some, append, arith}
use jinbe.ScimTokens.{strip_start, take_hex, is_hex, embedded_id, format_token}

-- `n` hexadecimal digits
abbrev pub IsHex : ℕ → String → Type 0
IsHex zero String.[] = Unit
IsHex zero (String.◌∷◌ c s) = ⊥
IsHex (suc n) String.[] = ⊥
IsHex (suc n) (String.◌∷◌ c s) = (is_hex (code c) ≡ true) × IsHex n s

take_hex-append : (n : ℕ) (s t : String) → IsHex n s → take_hex n (append s t) ≡ some (s, t)
unfolding take_hex
take_hex-append zero String.[] t h = refl
take_hex-append zero (String.◌∷◌ c s) t h = absurd h
take_hex-append (suc n) String.[] t h = absurd h
take_hex-append (suc n) (String.◌∷◌ c s) t (d, h) = rw (d, take_hex-append n s t h) refl

strip_start-append : (p s : String) → strip_start p (append p s) ≡ some s
unfolding strip_start
strip_start-append String.[] s = refl
strip_start-append (String.◌∷◌ c p) s = ground (arith, strip_start-append p s)

append-nil : (s : String) → append s "" ≡ s
append-nil String.[] = refl
append-nil (String.◌∷◌ c s) = rw (append-nil s) refl

pub embedded_id-format_token :
    (id secret : String)
    → IsHex 16 id
    → IsHex 64 secret
    → embedded_id (format_token id secret) ≡ some id
unfolding embedded_id format_token
embedded_id-format_token id secret h k =
    let whole : take_hex 64 secret ≡ some (secret, "") =
      subst (λ s. take_hex 64 s ≡ some (secret, "")) (append-nil secret)
        (take_hex-append 64 secret "" k) in
    rw (strip_start-append "scim_" (append id (append "_" secret))) (
      rw (take_hex-append 16 id (append "_" secret) h)
        (rw (strip_start-append "_" secret) (rw whole refl)))

pub embedded_id-empty : embedded_id "" ≡ none
unfolding embedded_id strip_start
embedded_id-empty = refl

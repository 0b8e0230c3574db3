-- ===== src/Redis.antt =====
-- What the repositories rely on of Redis: hashes with HGET, HSET, HDEL and HGETALL, and sets of
-- texts with SADD, SREM and SMEMBERS. A key that does not exist reads as an empty hash or set.
-- A value is stored as JSON text and parsed again when it is read; the model stores the value.
pub mod Memory
use jinbe.Prelude.{
  String, ◌≡◌, Bool, Option, none, some, ◌==◌, ◌||◌, ◌&&◌, not, if◌then◌else◌, List, Entries,
  lookup, All, includes,
}

pub record Redis : Type 1 where
  pub Hash : Type 0 → Type 0
  pub hget : (V : Type 0) → Hash V → String → Option V
  pub hset : (V : Type 0) → Hash V → String → V → Hash V
  pub hdel : (V : Type 0) → Hash V → String → Hash V
  pub hgetall : (V : Type 0) → Hash V → Entries V
  pub hget-hset :
      (V : Type 0) (h : Hash V) (k j : String) (v : V)
      → hget V (hset V h k v) j ≡ (if k == j then some v else hget V h j)
  pub hget-hdel :
      (V : Type 0) (h : Hash V) (k j : String)
      → hget V (hdel V h k) j ≡ (if k == j then none else hget V h j)
  pub lookup-hgetall : (V : Type 0) (h : Hash V) (k : String) → lookup k (hgetall V h) ≡ hget V h k
  pub empty : (V : Type 0) → Hash V
  pub hget-empty : (V : Type 0) (k : String) → hget V (empty V) k ≡ none
  pub hgetall-hget : (V : Type 0) (h : Hash V) → All (λ (k, v). hget V h k ≡ some v) (hgetall V h)
  pub Members : Type 0
  pub smembers : Members → List String
  pub sadd : Members → String → Members
  pub srem : Members → String → Members
  pub smembers-sadd :
      (m : Members) (a b : String)
      → includes (smembers (sadd m a)) b ≡ (a == b || includes (smembers m) b)
  pub smembers-srem :
      (m : Members) (a b : String)
      → includes (smembers (srem m a)) b ≡ (not (a == b) && includes (smembers m) b)

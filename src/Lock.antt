-- ===== src/Lock.antt =====
-- src/services/redis-lock.ts: `withRedisLock`, a mutex that is a Redis key with an expiry. Calls
-- are told apart by their random tokens; each runs on its own, and a step of the system is a step
-- of one call or time that passes. src/bootstrap/lock.ts uses the same two requests.
pub mod Exclusion
pub mod Waiting
mod Tests
use jinbe.Prelude.{
  ℕ, zero, suc, ◌+◌, String, ◌≡◌, Bool, true, false, ◌==◌, if◌then◌else◌, leb, Option, none, some,
}

pub record Entry : Type 0 where
  pub token : String
  pub expires : ℕ

-- what Redis knows of a key at a time
abbrev pub live : ℕ → Option Entry → Option Entry
live now none = none
live now (some e) = if leb e.expires now then none else some e

-- SET key token PX ttl NX: whether the reply is OK, and the key
unfoldable pub set_nx : ℕ → ℕ → String → Option Entry → Bool × Option Entry
set_nx now ttl token key = elim (live now key) [
  | none ↦ (true, some (record { token = token; expires = now + ttl }))
  | some e ↦ (false, some e)
]

-- RELEASE_LUA: compare and delete
unfoldable pub release : ℕ → String → Option Entry → Bool × Option Entry
release now token key = elim (live now key) [
  | none ↦ (false, none)
  | some e ↦ (if e.token == token then (true, none) else (false, some e))
]

pub record LockOptions : Type 0 where
  pub ttl_ms : ℕ
  pub wait_ms : ℕ
  pub retry_ms : ℕ

abbrev pub default_options : LockOptions
default_options = record { ttl_ms = 10_000; wait_ms = 5_000; retry_ms = 50 }

-- Where a call stands: it waits until a deadline, runs `fn`, or has thrown 503.
pub data Phase : Type 0 where
  idle : Phase
  waiting : ℕ → Phase
  inside : ℕ → Phase
  refused : Phase
  finished : Phase

pub record System : Type 0 where
  pub now : ℕ
  pub key : Option Entry
  pub phase : String → Phase

abbrev pub set_phase : String → Phase → System → System
set_phase token p s = record s { phase = λ t. if token == t then p else s.phase t }

module _ (options : String → LockOptions) where
  -- one turn of the loop that acquires
  unfoldable pub attempt : String → ℕ → System → System
  unfolding set_nx
  attempt token deadline s =
      let (won, key) = set_nx s.now (options token).ttl_ms token s.key in
      let entered =
        set_phase token (inside (s.now + (options token).ttl_ms)) (record s { key = key }) in
      let lost = set_phase token refused s in
      if won then entered else if leb deadline s.now then lost else s

  -- `finally`
  unfoldable pub leave : String → System → System
  unfolding release
  leave token s = set_phase token finished (record s { key = (release s.now token s.key).1 })

  pub data Step : System → System → Type 0 where
    start :
        (s : System) (t : String)
        → s.phase t ≡ idle
        → Step s (set_phase t (waiting (s.now + (options t).wait_ms)) s)
    poll :
        (s : System) (t : String) (deadline : ℕ)
        → s.phase t ≡ waiting deadline
        → Step s (attempt t deadline s)
    done : (s : System) (t : String) (u : ℕ) → s.phase t ≡ inside u → Step s (leave t s)
    -- the process dies, or the release does not reach Redis
    crash :
        (s : System) (t : String) (u : ℕ) → s.phase t ≡ inside u → Step s (set_phase t finished s)
    pass : (s : System) (ms : ℕ) → Step s (record s { now = s.now + ms })

  pub data Reach (s : System) : System → Type 0 where
    here : Reach s s
    next : {t u : System} → Reach s t → Step t u → Reach s u

-- the key of another run may still be there
abbrev pub quiet : ℕ → Option Entry → System
quiet now key = record { now = now; key = key; phase = λ t. idle }

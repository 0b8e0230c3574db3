-- ===== src/Lock/Exclusion.antt =====
-- Two calls run under the lock at once only if one has outlived its expiry.
use jinbe.Prelude.{ℕ, ◌<◌, String, ◌≡◌, ◌≢◌, refl, eq_iff, eq_refl, Option, none, some, arith}
use jinbe.Lock.{
  Entry, release, LockOptions, waiting, inside, System, attempt, leave, Step, start, poll, done,
  crash, pass, Reach, here, next, quiet,
}

-- A call that runs, and whose time is not over, owns the key.
abbrev IsOwned : System → Type 0
IsOwned s =
    (t : String) (u : ℕ)
    → s.phase t ≡ inside u
    → s.now < u
    → s.key ≡ some (record { token = t; expires = u })

release-other :
    (now : ℕ) (t t' : String) (u : ℕ) (key : Option Entry)
    → t ≢ t'
    → now < u
    → key ≡ some (record { token = t'; expires = u })
    → (release now t key).1 ≡ key
unfolding release
release-other now t t' u none n k e = refl
release-other now t t' u (some v) n k e = ground (arith, eq_iff v.token t)

module _ (options : String → LockOptions) where
  attempt-IsOwned :
      (s : System) (t : String) (deadline : ℕ)
      → s.phase t ≡ waiting deadline
      → IsOwned s
      → IsOwned (attempt options t deadline s)
  unfolding attempt
  attempt-IsOwned s t deadline w owned t' u h k = ground (arith, eq_iff t t', owned t' u)

  leave-IsOwned : (s : System) (t : String) → IsOwned s → IsOwned (leave options t s)
  unfolding leave
  leave-IsOwned s t owned t' u h k =
      ground
        (arith, eq_iff t t', eq_iff t' t, eq_refl t, owned t' u, release-other s.now t t' u s.key)

  Step-IsOwned : (s t : System) → Step options s t → IsOwned s → IsOwned t
  Step-IsOwned _ _ (start s t e) owned t' u h k = ground (arith, eq_iff t t', owned t' u)
  Step-IsOwned _ _ (poll s t d e) owned t' u h k = attempt-IsOwned s t d e owned t' u h k
  Step-IsOwned _ _ (done s t v e) owned t' u h k = leave-IsOwned s t owned t' u h k
  Step-IsOwned _ _ (crash s t v e) owned t' u h k = ground (arith, eq_iff t t', owned t' u)
  Step-IsOwned _ _ (pass s ms) owned t' u h k = ground (arith, owned t' u)

  Reach-IsOwned : (s t : System) → Reach options s t → IsOwned s → IsOwned t
  Reach-IsOwned s _ here owned = owned
  Reach-IsOwned s _ (next {t} {u} r st) owned = Step-IsOwned t u st (Reach-IsOwned s t r owned)

  -- However the calls interleave: of two that run under the lock, with neither's expiry over, both
  -- are the same call. At the start no call runs, and the key may be held by another run.
  pub mutual_exclusion :
      (now : ℕ) (key : Option Entry) (s : System)
      → Reach options (quiet now key) s
      → (a b : String) (u v : ℕ) → s.phase a ≡ inside u
      → s.phase b ≡ inside v
      → s.now < u
      → s.now < v
      → a ≡ b
  mutual_exclusion now key s r a b u v in_a in_b fresh_a fresh_b =
      let owned = Reach-IsOwned (quiet now key) s r (λ t w h k. cc) in
      ground (arith, owned a u in_a fresh_a, owned b v in_b fresh_b)

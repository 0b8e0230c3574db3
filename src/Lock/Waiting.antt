-- ===== src/Lock/Waiting.antt =====
-- The loop that acquires the lock, of one call: how long it can go on.
use jinbe.Lock.{LockOptions}
use jinbe.Prelude.{
  ℕ, zero, suc, ◌+◌, ◌*◌, ◌≤◌, ◌≡◌, inl, inr, Bool, true, false, if◌then◌else◌, leb, Option, none,
  some, arith, Bool-cases,
}

-- `answers` are the replies of Redis to the requests of the rounds, `clock` the times at their
-- tests of the deadline; `none` is that the rounds run out.
unfoldable pub acquire : ℕ → (ℕ → ℕ) → (ℕ → Bool) → ℕ → ℕ → Option Bool
acquire zero clock answers deadline k = none
acquire (suc rounds) clock answers deadline k =
    let rest = acquire rounds clock answers deadline (k + 1) in
    if answers k then some true else if leb deadline (clock k) then some false else rest

module _ (clock : ℕ → ℕ) (answers : ℕ → Bool) (deadline retry : ℕ) where
  acquire-from :
      (rounds k : ℕ)
      → ((j : ℕ) → clock j + retry ≤ clock (j + 1))
      → deadline ≤ clock k + rounds * retry
      → (b : Bool) × (acquire (suc rounds) clock answers deadline k ≡ some b)
  unfolding acquire
  acquire-from zero k slow h = elim (Bool-cases (answers k)) [
    | inl won ↦ (true, grind arith)
    | inr lost ↦ (false, grind arith)
  ]
  acquire-from (suc rounds) k slow h =
      let (b, e) = acquire-from rounds (k + 1) slow (grind (arith, slow k)) in
      elim (Bool-cases (answers k)) [
        | inl won ↦ (true, grind arith)
        | inr lost ↦ elim (Bool-cases (leb deadline (clock k))) [
          | inl over ↦ (false, grind arith)
          | inr early ↦ (b, grind (arith, e))
        ]
      ]

-- A call that waits for the lock gets it or is refused, whatever Redis answers: where each round
-- takes `retry` ms or more, it does so within as many rounds as `retry` goes into the wait, and one.
pub acquire-total :
    (clock : ℕ → ℕ) (answers : ℕ → Bool) (options : LockOptions) (rounds : ℕ)
    → ((j : ℕ) → clock j + options.retry_ms ≤ clock (j + 1))
    → options.wait_ms ≤ rounds * options.retry_ms
    → (b : Bool) × (acquire (suc rounds) clock answers (clock 0 + options.wait_ms) 0 ≡ some b)
acquire-total clock answers options rounds slow h =
    acquire-from clock answers (clock 0 + options.wait_ms) options.retry_ms rounds 0 slow
      (grind (arith, h))

-- ===== src/Lock/Tests.antt =====
-- Tests of the lock, and its theorems at concrete calls.
use jinbe.Prelude.{◌+◌, ◌*◌, String, ◌≡◌, refl, Bool, leb, none, some, arith}
use jinbe.Lock.{
  System, LockOptions, default_options, attempt, leave, set_phase, waiting, Reach, here, next,
  start, poll, quiet,
}
use jinbe.Lock.Exclusion.{mutual_exclusion}
use jinbe.Lock.Waiting.{acquire, acquire-total}

abbrev options : String → LockOptions
options t = default_options

-- a call gets the lock, and a second has asked for it in vain
abbrev two_calls : System
unfolding attempt
two_calls =
    let s0 = quiet 7 none in
    let s1 = set_phase "a" (waiting 5007) s0 in
    let s2 = set_phase "b" (waiting 5007) s1 in
    attempt options "b" 5007 (attempt options "a" 5007 s2)

two_calls-Reach : Reach options (quiet 7 none) two_calls
unfolding attempt
two_calls-Reach =
    let s0 = quiet 7 none in
    let s1 = set_phase "a" (waiting 5007) s0 in
    let s2 = set_phase "b" (waiting 5007) s1 in
    next (next (next (next here (start s0 "a" refl)) (start s1 "b" refl)) (poll s2 "a" 5007 refl))
      (poll (attempt options "a" 5007 s2) "b" 5007 refl)

second_waits : two_calls.phase "b" ≡ waiting 5007
unfolding attempt
second_waits = refl

mutual_exclusion_example : ◌≡◌ {A = String} "a" "a"
unfolding attempt two_calls
mutual_exclusion_example =
    mutual_exclusion options 7 none two_calls two_calls-Reach "a" "a" 10_007 10_007 refl refl
      (grind arith) (grind arith)

-- the release of a call that has outlived its expiry leaves the key of the next owner
overrun :
    (leave options "a"
      (record two_calls { key = some (record { token = "b"; expires = 30_000 }) })).key
    ≡ some (record { token = "b"; expires = 30_000 })
unfolding leave two_calls
overrun = refl

acquire-total_example :
    (b : Bool) × (acquire 101 (λ k. 3 + k * 50) (λ k. leb 4 k) (3 + 5_000) 0 ≡ some b)
acquire-total_example =
    acquire-total (λ k. 3 + k * 50) (λ k. leb 4 k) default_options 100 (λ j. grind arith)
      (grind arith)

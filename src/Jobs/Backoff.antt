-- ===== src/Jobs/Backoff.antt =====
-- The retries of a job that always fails, and the pauses between them.
use euvieouvi.Base.{ℕ, zero, suc, ◌+◌, ◌*◌, ◌^◌, ◌-◌, ◌≤◌, ◌<◌, ◌≡◌, refl, String, none, arith, min}
use native.Mathlib.Nat.{pow-suc}
use euvieouvi.Jobs.Row.{JobRun, queued, failed}
use euvieouvi.Jobs.Claim.{claim_row}
use euvieouvi.Jobs.Retry.{retry_delay, fail_row}

power_pos : (n : ℕ) → 0 < 2 ^ n
power_pos zero = omega arith
power_pos (suc n) = rw pow-suc (omega (arith, power_pos n))

-- The pause after a failed attempt of a job lies between five seconds and five minutes.
job_retry_delay_bounds : (n : ℕ) → (5 ≤ retry_delay n) × (retry_delay n ≤ 300)
unfolding retry_delay
job_retry_delay_bounds n = (omega (arith, power_pos (n - 1)), omega arith)

-- The pause after a failed attempt of a job doubles with each attempt until it stays at five minutes.
retry_delay-suc : (n : ℕ) → retry_delay (suc (suc n)) ≡ min 300 (2 * retry_delay (suc n))
unfolding retry_delay
retry_delay-suc n =
    let up : suc (suc n) - 1 ≡ suc n = omega arith in
    let down : suc n - 1 ≡ n = omega arith in rw (up, down, pow-suc) (omega arith)

-- A claim followed by a failure, `n` times.
unfoldable pub cycle : String → String → ℕ → ℕ → JobRun → JobRun
cycle worker_id detail now zero r = r
cycle worker_id detail now (suc n) r =
    fail_row detail now (claim_row worker_id now (cycle worker_id detail now n r))

-- The row of a job that has been retried: queued again, with its attempts counted.
record IsRetried (n : ℕ) (r r' : JobRun) : Type 0 where
  queued_again : r'.status ≡ queued
  counted : r'.attempt_count ≡ r.attempt_count + n
  limit : r'.max_attempts ≡ r.max_attempts
  wanted : r'.cancel_requested_at ≡ none

module _ (worker_id detail : String) (now : ℕ) (r : JobRun) (waiting : r.status ≡ queued)
    (wanted : r.cancel_requested_at ≡ none) where
  retried :
      (n : ℕ)
      → r.attempt_count + n < r.max_attempts
      → IsRetried n r (cycle worker_id detail now n r)
  unfolding cycle claim_row fail_row
  retried zero h = record {
    queued_again = waiting;
    counted = omega arith;
    limit = refl;
    wanted = wanted;
  }
  retried (suc n) h =
      let before = retried n (omega arith) in
      let e = before.counted in let l = before.limit in let w = before.wanted in ground arith

  -- A queued job whose every attempt fails is queued again after each of its attempts but the last,
  -- and failed, with all of them counted, after that.
  pub cycle_outcome :
      (n : ℕ)
      → r.attempt_count + suc n ≡ r.max_attempts
      → ((k : ℕ) → k ≤ n → (cycle worker_id detail now k r).status ≡ queued)
        × ((cycle worker_id detail now (suc n) r).status ≡ failed)
        × ((cycle worker_id detail now (suc n) r).attempt_count ≡ r.max_attempts)
  unfolding cycle claim_row fail_row
  cycle_outcome n h =
      let last = retried n (omega arith) in
      let e = last.counted in
      let l = last.limit in
      let w = last.wanted in
      ((λ k le. (retried k (omega arith)).queued_again), ground arith, ground arith)

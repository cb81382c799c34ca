-- ===== src/Proxy/Retry.antt =====
-- apps/gateway/src/proxy/retry.ts, `withRetry`. What each attempt would give is a function of the
-- attempt; `Math.random()` is the fraction r / 2 ^ 53 of an argument r below 2 ^ 53, one for each
-- attempt. The fuel is the number of attempts that are left: an attempt below the maximum leaves one
-- fewer, and `max` is enough from the first on. A maximum of 0 makes one attempt, as in the source.
pub mod Attempts
use vibe_shield.Prelude.{
  ℕ, zero, suc, ◌+◌, ◌*◌, ◌-◌, ◌/◌, ◌^◌, min, Bool, true, false, ◌&&◌, ◌||◌, not, List, [], ◌∷◌,
  Option, none, some, leb, ◌==◌, if◌then◌else◌, Result, ok, err,
}

-- The status of an error, where it has one that is a number.
pub record UpstreamError : Type 0 where
  pub status : Option ℕ

pub record RetryOptions : Type 0 where
  pub max_attempts : Option ℕ
  pub base_delay_ms : Option ℕ
  pub max_delay_ms : Option ℕ

abbrev pub or_default : Option ℕ → ℕ → ℕ
or_default none d = d
or_default (some n) d = n

unfoldable pub is_retryable : UpstreamError → Bool
is_retryable e = elim e.status [ none ↦ false | some s ↦ s == 429 || leb 500 s ]

-- The delay after the attempt: full jitter below the exponential backoff.
unfoldable pub delay_after : RetryOptions → ℕ → ℕ → ℕ
delay_after o attempt random =
    let exp_backoff =
      min (or_default o.max_delay_ms 8000) (or_default o.base_delay_ms 250 * 2 ^ (attempt - 1)) in
    random * exp_backoff / 2 ^ 53

abbrev pub max_of : RetryOptions → ℕ
max_of o = or_default o.max_attempts 3

-- What a run gives: the delays that were waited for, and the result.
pub record Run {ℓ} (A : Type ℓ) : Type ℓ where
  pub delays : List ℕ
  pub result : Result UpstreamError A

module _ {ℓ} {A : Type ℓ} (op : ℕ → Result UpstreamError A) (random : ℕ → ℕ)
    (o : RetryOptions) where
  -- The loop from the given attempt on.
  unfoldable pub attempt_from : ℕ → ℕ → Run A
  attempt_from zero attempt = record { delays = []; result = op attempt }
  attempt_from (suc left) attempt =
      let later = attempt_from left (suc attempt) in
      elim (op attempt) [
        | ok a ↦ record { delays = []; result = ok a }
        | err e ↦
            if not (is_retryable e) || leb (max_of o) attempt
            then record { delays = []; result = err e }
            else record {
              delays = delay_after o attempt (random attempt) ∷ later.delays;
              result = later.result;
            }
      ]

  unfoldable pub with_retry : Run A
  with_retry = attempt_from (max_of o) 1

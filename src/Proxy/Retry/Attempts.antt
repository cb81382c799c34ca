-- ===== src/Proxy/Retry/Attempts.antt =====
-- What a run with retries gives, and how long it waits.
use vibe_shield.Prelude.{
  ℕ, zero, suc, ◌+◌, ◌*◌, ◌-◌, ◌/◌, ◌^◌, ◌≤◌, ◌<◌, ◌≡◌, refl, min, max, Bool, true, false, ◌&&◌,
  ◌||◌, not, [], leb, Result, ok, err, arith, Bool-cases, inl, inr, length, All, subst,
  Result-cases,
}
use native.Mathlib.Nat.{div-le_of_le-mul, mul-le-mul_right}
use vibe_shield.Proxy.Retry.{
  UpstreamError, RetryOptions, or_default, is_retryable, delay_after, Run, max_of, attempt_from,
  with_retry,
}

delay_le : (random exp : ℕ) → random < 2 ^ 53 → random * exp / 2 ^ 53 ≤ exp
delay_le random exp h = div-le_of_le-mul (2 ^ 53) (mul-le-mul_right exp (omega (arith, h)))

module _ {ℓ} {A : Type ℓ} (op : ℕ → Result UpstreamError A) (random : ℕ → ℕ)
    (o : RetryOptions) where
  -- An attempt that fails with an error that is retried.
  abbrev pub fails_again : Result UpstreamError A → Bool
  fails_again (ok a) = false
  fails_again (err e) = is_retryable e

  -- So do n attempts from one on.
  abbrev pub all_fail : ℕ → ℕ → Bool
  all_fail zero attempt = true
  all_fail (suc n) attempt = fails_again (op attempt) && all_fail n (suc attempt)

  -- A run that starts with this attempt ends with the first attempt that is not retried, or that is
  -- the last one allowed.
  abbrev Ends : ℕ → Run A → Type ℓ
  Ends attempt run =
      let n = length run.delays in
      (run.result ≡ op (attempt + n))
      × (attempt + n ≤ max (max_of o) 1)
      × (all_fail n attempt ≡ true)
      × ((fails_again (op (attempt + n)) && not (leb (max_of o) (attempt + n))) ≡ false)

  Ends-here :
      (attempt : ℕ)
      → attempt ≤ max (max_of o) 1
      → (fails_again (op attempt) && not (leb (max_of o) attempt)) ≡ false
      → Ends attempt (record { delays = []; result = op attempt })
  Ends-here attempt bound last =
      let same : attempt + 0 ≡ attempt = omega arith in rw same (refl, bound, refl, last)

  attempt_from_lem :
      (left attempt : ℕ)
      → suc (max_of o) ≤ attempt + left
      → attempt ≤ max (max_of o) 1
      → Ends attempt (attempt_from op random o left attempt)
  unfolding attempt_from
  attempt_from_lem zero attempt enough bound = Ends-here attempt bound (ground arith)
  attempt_from_lem (suc left) attempt enough bound = elim (Result-cases (op attempt)) [
    | inl (a, q) ↦
        rw (q, attempt_from)
          (subst (λ m. Ends attempt (record { delays = []; result = m })) q
            (Ends-here attempt bound (rw q refl)))
    | inr (e, q) ↦ elim (Bool-cases (not (is_retryable e) || leb (max_of o) attempt)) [
      | inl stop ↦
          rw (q, attempt_from)
            (rw stop (
              subst (λ m. Ends attempt (record { delays = []; result = m })) q
                (Ends-here attempt bound (rw q (ground arith)))))
      | inr again ↦
          let (same, most, failed, last) =
            attempt_from_lem left (suc attempt) (omega arith) (ground arith) in
          let n = length (attempt_from op random o left (suc attempt)).delays in
          let shift : attempt + suc n ≡ suc attempt + n = omega arith in
          let retried : is_retryable e ≡ true = ground arith in
          rw (q, attempt_from) (rw again (rw shift (same, most, (rw (q, retried) failed), last)))
    ]
  ]

  delays_le :
      ((attempt : ℕ) → random attempt < 2 ^ 53)
      → (left attempt : ℕ)
      → All (λ d. d ≤ or_default o.max_delay_ms 8000) (attempt_from op random o left attempt).delays
  unfolding attempt_from delay_after
  delays_le h zero attempt = tt
  delays_le h (suc left) attempt = elim (Result-cases (op attempt)) [
    | inl (a, q) ↦ rw (q, attempt_from) tt
    | inr (e, q) ↦ elim (Bool-cases (not (is_retryable e) || leb (max_of o) attempt)) [
      | inl stop ↦ rw (q, attempt_from) (rw stop tt)
      | inr again ↦
          let ceiling = or_default o.max_delay_ms 8000 in
          let backoff = or_default o.base_delay_ms 250 * 2 ^ (attempt - 1) in
          let first = delay_le (random attempt) (min ceiling backoff) (h attempt) in
          rw (q, attempt_from) (rw again (omega (arith, first), delays_le h left (suc attempt)))
    ]
  ]

  -- A run with retries ends: with the first attempt that succeeds, or fails with an error that is not
  -- retried, or is the last one allowed. All attempts before it failed with errors that are retried;
  -- there are at most `max_attempts` of them, and one at least; and their result is that attempt's.
  pub with_retry_lem :
      let run = with_retry op random o in
      let n = length run.delays in
      (run.result ≡ op (1 + n))
      × (1 + n ≤ max (max_of o) 1)
      × (all_fail n 1 ≡ true)
      × ((fails_again (op (1 + n)) && not (leb (max_of o) (1 + n))) ≡ false)
  unfolding with_retry
  with_retry_lem = attempt_from_lem (max_of o) 1 (omega arith) (omega arith)

  -- No wait is longer than the ceiling, whatever the random numbers are.
  pub with_retry-delays :
      ((attempt : ℕ) → random attempt < 2 ^ 53)
      → All (λ d. d ≤ or_default o.max_delay_ms 8000) (with_retry op random o).delays
  unfolding with_retry
  with_retry-delays h = delays_le h (max_of o) 1

-- ===== src/Quota/RateLimit/Window.antt =====
-- How many calls one window admits.
use vibe_shield.Prelude.{
  ℕ, suc, ◌+◌, ◌*◌, ◌-◌, ◌/◌, ◌≤◌, ◌<◌, ◌≡◌, refl, sym, ap, ◌∙◌, min, max, List, [], ◌∷◌, Option,
  Text, length, ltb, ◌==◌, if◌then◌else◌, Result, ok, err, Result-err-injective, ◌%◌, arith,
  Bool-cases, inl, inr, All,
}
use native.Mathlib.Nat.{mod-add-div, mod-lt, mul-div_cancel}
use vibe_shield.Quota.Redis.{Redis}
use vibe_shield.Quota.RateLimit.{RateLimitExceeded, RateLimiter, or_else, rate_key, check}

-- The wait until the next window: from a second to the whole window.
next_window :
    (now w : ℕ)
    → 0 < w
    → let wait = max (suc (now / w) * w - now) 1 in
      (1 ≤ wait) × (wait ≤ w) × ((now + wait) / w ≡ suc (now / w))
next_window now w long =
    let parts = mod-add-div now w in
    let small = mod-lt now long in
    let wait : max (suc (now / w) * w - now) 1 ≡ w - now % w = omega (arith, parts, small) in
    let there : now + (w - now % w) ≡ suc (now / w) * w = omega (arith, parts, small) in
    rw wait (omega (arith, small), omega arith, rw there (mul-div_cancel (suc (now / w)) long))

module _ (r : Redis) (limiter : RateLimiter) (tenant app : Text) (limit : Option ℕ) where
  -- Calls at the given times, one after the other: how many are admitted.
  abbrev passed : Result RateLimitExceeded (Unit {0}) → ℕ
  passed (ok _) = 1
  passed (err e) = 0

  abbrev pub admitted : List ℕ → r.Store → ℕ
  admitted [] s = 0
  admitted (now ∷ later) s =
      let (result, s') = check r limiter tenant app limit now s in passed result + admitted later s'

  check_lem :
      (now window : ℕ) (s : r.Store)
      → now / limiter.window_seconds ≡ window
      → let key = rate_key tenant app window in
        (passed (check r limiter tenant app limit now s).0
          ≡ (if ltb (or_else limit limiter.default_limit) (r.value key s + 1) then 0 else 1))
        × (r.value key (check r limiter tenant app limit now s).1 ≡ r.value key s + 1)
  unfolding check
  check_lem now window s at =
      let key = rate_key tenant app window in
      rw (at, r.incrby_returns key 1 s)
        (
          (elim (Bool-cases (ltb (or_else limit limiter.default_limit) (r.value key s + 1))) [
            | inl over ↦ rw over refl
            | inr within ↦ rw within refl
          ]),
          (elim (Bool-cases (r.value key s + 1 == 1)) [
            | inl first ↦
                rw first
                  (r.expire_keeps key key (limiter.window_seconds + 5) _ ∙ r.incrby_here key 1 s)
            | inr again ↦ rw again (r.incrby_here key 1 s)
          ]),
        )

  -- Of the calls of a tenant and an app within one window, in any number and at whatever moments,
  -- exactly as many are admitted as the window's count leaves below the limit; the rest is refused.
  pub check-admitted :
      (window : ℕ) (times : List ℕ) (s : r.Store)
      → All (λ now. now / limiter.window_seconds ≡ window) times
      → admitted times s
        ≡ min
            (or_else limit limiter.default_limit - r.value (rate_key tenant app window) s)
            (length times)
  check-admitted window [] s h = omega arith
  check-admitted window (now ∷ later) s (at, h) =
      let (first, count) = check_lem now window s at in
      let rest = check-admitted window later (check r limiter tenant app limit now s).1 h in
      ground (arith, first, count, rest)

  -- A call that is refused names the limit, and a wait of at least a second that is over, where it is
  -- not the whole window, when the next window begins.
  pub check-retry :
      (now : ℕ) (s : r.Store) (e : RateLimitExceeded)
      → 0 < limiter.window_seconds
      → (check r limiter tenant app limit now s).0 ≡ err e
      → (e.limit ≡ or_else limit limiter.default_limit)
        × (1 ≤ e.retry_after_seconds)
        × (e.retry_after_seconds ≤ limiter.window_seconds)
        × ((now + e.retry_after_seconds) / limiter.window_seconds
            ≡ suc (now / limiter.window_seconds))
  unfolding check
  check-retry now s e long refused =
      let w = limiter.window_seconds in
      let cap = or_else limit limiter.default_limit in
      let count = (r.incrby (rate_key tenant app (now / w)) 1 s).0 in
      elim (Bool-cases (ltb cap count)) [
        | inr within ↦
            let passes : (check r limiter tenant app limit now s).0 ≡ ok tt =
              rw (within, check) refl in
            cc (passes, refused)
        | inl over ↦
            let fails : (check r limiter tenant app limit now s).0
                ≡ err (record {
                  limit = cap;
                  retry_after_seconds = max (suc (now / w) * w - now) 1;
                }) =
              rw (over, check) refl in
            let same = Result-err-injective (sym refused ∙ fails) in
            let wait : e.retry_after_seconds ≡ max (suc (now / w) * w - now) 1 =
              ap (λ (x : RateLimitExceeded). x.retry_after_seconds) same in
            let (least, most, reached) = next_window now w long in
            (
              ap (λ (x : RateLimitExceeded). x.limit) same,
              rw wait least,
              rw wait most,
              rw wait reached,
            )
      ]

-- ===== src/Quota/SpendRate.antt =====
-- apps/gateway/src/quota/spend-rate-limiter.ts, `SpendRateLimiter`. The clock is an argument, in
-- seconds; a cap is a natural number, of which 0 stands for every cap that is not positive.
pub mod Warning
use vibe_shield.Prelude.{
  ℕ, suc, ◌+◌, ◌*◌, ◌-◌, ◌/◌, max, Bool, true, false, ◌&&◌, not, ◌++◌, Option, none, some, Text,
  codes, decimal, leb, ltb, ◌==◌, if◌then◌else◌, Result, ok, err,
}
use vibe_shield.Quota.Redis.{Redis}
use vibe_shield.Quota.RateLimit.{or_else}

pub record SpendRateLimitExceeded : Type 0 where
  pub cap_microdollars : ℕ
  pub current_microdollars : ℕ
  pub retry_after_seconds : ℕ

pub record SpendRateLimiter : Type 0 where
  pub default_cap_microdollars : ℕ
  pub window_seconds : ℕ

unfoldable pub enabled : SpendRateLimiter → Bool
enabled limiter = ltb 0 limiter.default_cap_microdollars

-- `vs:srl:${tenantId}:${window}`, and the seconds until the window ends.
unfoldable pub key_for : SpendRateLimiter → Text → ℕ → Text × ℕ
key_for limiter tenant_id now =
    let window = now / limiter.window_seconds in
    (
      codes "vs:srl:" ++ (tenant_id ++ (codes ":" ++ decimal window)),
      max (suc window * limiter.window_seconds - now) 1,
    )

-- Where the soft warning is due: four fifths of the cap.
abbrev pub soft_mark : ℕ → ℕ
soft_mark cap = cap * 80 / 100

module _ (r : Redis) (limiter : SpendRateLimiter) where
  unfoldable pub check : Text → Option ℕ → ℕ → r.Store → Result SpendRateLimitExceeded (Unit {0})
  check tenant_id cap_override now s =
      let cap = or_else cap_override limiter.default_cap_microdollars in
      let (key, retry_after) = key_for limiter tenant_id now in
      let current = r.value key s in
      if cap == 0
      then ok tt
      else if leb cap current
      then err (record {
        cap_microdollars = cap;
        current_microdollars = current;
        retry_after_seconds = retry_after;
      })
      else ok tt

  -- Whether the soft warning is given.
  unfoldable pub record_cost : Text → ℕ → Option ℕ → ℕ → r.Store → Bool × r.Store
  record_cost tenant_id cost cap_override now s =
      let cap = or_else cap_override limiter.default_cap_microdollars in
      let key = (key_for limiter tenant_id now).0 in
      let (new_total, s') = r.incrby key cost s in
      let s'' = if new_total == cost then r.expire key (limiter.window_seconds + 5) s' else s' in
      if not (ltb 0 cap && ltb 0 cost)
      then (false, s)
      else (leb (soft_mark cap) new_total && ltb (new_total - cost) (soft_mark cap), s'')

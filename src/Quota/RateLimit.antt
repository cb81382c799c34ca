-- ===== src/Quota/RateLimit.antt =====
-- apps/gateway/src/quota/rate-limiter.ts, `RateLimiter`. The clock is an argument, in seconds.
pub mod Window
use vibe_shield.Prelude.{
  ℕ, suc, ◌+◌, ◌*◌, ◌-◌, ◌/◌, max, List, [], ◌∷◌, ◌++◌, Option, none, some, Text, codes, decimal,
  ltb, ◌==◌, if◌then◌else◌, Result, ok, err,
}
use vibe_shield.Quota.Redis.{Redis}

-- The limit, and the seconds after which to try again.
pub record RateLimitExceeded : Type 0 where
  pub limit : ℕ
  pub retry_after_seconds : ℕ

pub record RateLimiter : Type 0 where
  pub default_limit : ℕ
  pub window_seconds : ℕ

abbrev pub or_else : Option ℕ → ℕ → ℕ
or_else none d = d
or_else (some n) d = n

-- The constructor, with its defaults.
unfoldable pub new_rate_limiter : Option ℕ → Option ℕ → RateLimiter
new_rate_limiter limit seconds = record {
  default_limit = or_else limit 60;
  window_seconds = or_else seconds 60;
}

-- `vs:rl:${tenantId}:${appId}:${window}`
unfoldable pub rate_key : Text → Text → ℕ → Text
rate_key tenant_id app_id window =
    codes "vs:rl:" ++ (tenant_id ++ (codes ":" ++ (app_id ++ (codes ":" ++ decimal window))))

module _ (r : Redis) (limiter : RateLimiter) where
  unfoldable pub check :
      Text → Text → Option ℕ → ℕ → r.Store → Result RateLimitExceeded (Unit {0}) × r.Store
  check tenant_id app_id limit now s =
      let cap = or_else limit limiter.default_limit in
      let window = now / limiter.window_seconds in
      let key = rate_key tenant_id app_id window in
      let (count, s') = r.incrby key 1 s in
      let s'' = if count == 1 then r.expire key (limiter.window_seconds + 5) s' else s' in
      (
        if ltb cap count
            then err (record {
              limit = cap;
              retry_after_seconds = max (suc window * limiter.window_seconds - now) 1;
            })
            else ok tt,
        s'',
      )

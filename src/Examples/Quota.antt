-- ===== src/Examples/Quota.antt =====
-- Quotas at concrete inputs: a Redis whose store is a function from the keys to their values.
use vibe_shield.Prelude.{
  ℕ, ◌≡◌, ◌+◌, ◌-◌, refl, false, ◌&&◌, [], ◌∷◌, none, Text, codes, same_text, same_text_refl, arith,
  ltb, leb, if◌then◌else◌, min,
}
use vibe_shield.Quota.Redis.{Redis}
use vibe_shield.Quota.RateLimit.{RateLimiter}
use vibe_shield.Quota.RateLimit.Window.{admitted, check-admitted}
use vibe_shield.Quota.SpendRate.{SpendRateLimiter, key_for, soft_mark}
use vibe_shield.Quota.SpendRate.Warning.{record_all, record_all_lem}

abbrev pub Values : Type 0
Values = Text → ℕ

pub added_here :
    (k : Text) (n : ℕ) (s : Values) → (if same_text k k then s k + n else s k) ≡ s k + n
added_here k n s = rw (same_text_refl k)

pub added_there :
    (k j : Text) (n : ℕ) (s : Values)
    → same_text k j ≡ false
    → (if same_text k j then s j + n else s j) ≡ s j
added_there k j n s h = rw h

abbrev pub table : Redis
table = record {
  Store = Values;
  value = λ k s. s k;
  incrby = λ k n s. (s k + n, λ j. if same_text k j then s j + n else s j);
  expire = λ k n s. s;
  incrby_returns = λ k n s. refl;
  incrby_here = added_here;
  incrby_there = added_there;
  expire_keeps = λ k j n s. refl;
}

abbrev pub empty : Values
empty k = 0

abbrev two_a_minute : RateLimiter
two_a_minute = record { default_limit = 2; window_seconds = 60 }

abbrev firm : Text
firm = codes "firm"

check-admitted_example :
    admitted table two_a_minute firm (codes "mybooks") none (60 ∷ 70 ∷ 119 ∷ []) empty
    ≡ min (2 - 0) 3
check-admitted_example =
    check-admitted table two_a_minute firm (codes "mybooks") none 1 (60 ∷ 70 ∷ 119 ∷ []) empty
      (refl, (refl, (refl, tt)))

abbrev hundred : SpendRateLimiter
hundred = record { default_cap_microdollars = 100; window_seconds = 60 }

same_window : (key_for hundred firm 62).0 ≡ (key_for hundred firm 61).0
unfolding key_for
same_window = refl

record_all_lem_example :
    ((record_all table hundred firm none ((50, 61) ∷ (40, 62) ∷ []) empty).0
      ≡ (if ltb 0 (soft_mark 100) && leb (soft_mark 100) (0 + 90) then 1 else 0))
    × (table.value
          (key_for hundred firm 61).0
          (record_all table hundred firm none ((50, 61) ∷ (40, 62) ∷ []) empty).1
        ≡ 0 + 90)
record_all_lem_example =
    record_all_lem table hundred firm none (key_for hundred firm 61).0 ((50, 61) ∷ (40, 62) ∷ [])
      empty (omega arith) (refl, (same_window, tt))

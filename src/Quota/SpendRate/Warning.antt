-- ===== src/Quota/SpendRate/Warning.antt =====
-- The warning at four fifths of the cap, and the cap.
use vibe_shield.Prelude.{
  ℕ, ◌+◌, ◌<◌, ◌≡◌, ◌∙◌, Bool, true, false, ◌&&◌, List, [], ◌∷◌, Option, Text, leb, ltb, ◌==◌,
  if◌then◌else◌, arith, Bool-cases, inl, inr, All,
}
use vibe_shield.Quota.Redis.{Redis}
use vibe_shield.Quota.RateLimit.{or_else}
use vibe_shield.Quota.SpendRate.{SpendRateLimiter, key_for, soft_mark, record_cost}

module _ (r : Redis) (limiter : SpendRateLimiter) (tenant : Text) (cap_override : Option ℕ) where
  abbrev cap : ℕ
  cap = or_else cap_override limiter.default_cap_microdollars

  abbrev one_if : Bool → ℕ
  one_if true = 1
  one_if false = 0

  -- The costs, each with its time, are recorded one after the other: how many warnings are given, and
  -- what is left in the store.
  abbrev pub record_all : List (ℕ × ℕ) → r.Store → ℕ × r.Store
  record_all [] s = (0, s)
  record_all ((cost, now) ∷ later) s =
      let (warned, s') = record_cost r limiter tenant cost cap_override now s in
      let (n, s'') = record_all later s' in (one_if warned + n, s'')

  abbrev pub total : List (ℕ × ℕ) → ℕ
  total [] = 0
  total ((cost, now) ∷ later) = cost + total later

  record_cost_lem :
      (cost now : ℕ) (key : Text) (s : r.Store)
      → 0 < cap
      → (key_for limiter tenant now).0 ≡ key
      → (one_if (record_cost r limiter tenant cost cap_override now s).0 ≡ (
          if ltb (r.value key s) (soft_mark cap) && leb (soft_mark cap) (r.value key s + cost)
          then 1
          else 0))
        × (r.value key (record_cost r limiter tenant cost cap_override now s).1
            ≡ r.value key s + cost)
  unfolding record_cost
  record_cost_lem cost now key s pos at = elim (Bool-cases (ltb 0 cost)) [
    | inl some_cost ↦
        let open_cap : ltb 0 cap ≡ true = ground arith in
        rw (at, r.incrby_returns key cost s, some_cost, open_cap)
          (
            ground arith,
            (elim (Bool-cases (r.value key s + cost == cost)) [
              | inl first ↦
                  rw first (
                    r.expire_keeps key key (limiter.window_seconds + 5) _
                    ∙ r.incrby_here key cost s)
              | inr again ↦ rw again (r.incrby_here key cost s)
            ]),
          )
    | inr no_cost ↦ let nothing : cost ≡ 0 = ground arith in rw nothing (ground arith, ground arith)
  ]

  -- However the costs of a tenant within one window are spread over calls, their sum is what the
  -- window holds more than before, and, where the cap is positive, the soft warning is given
  -- exactly once if that passes the mark, and never otherwise.
  pub record_all_lem :
      (key : Text) (costs : List (ℕ × ℕ)) (s : r.Store)
      → 0 < cap
      → All (λ (c : ℕ × ℕ). (key_for limiter tenant c.1).0 ≡ key) costs
      → ((record_all costs s).0 ≡ (
          if ltb (r.value key s) (soft_mark cap)
            && leb (soft_mark cap) (r.value key s + total costs)
          then 1
          else 0))
        × (r.value key (record_all costs s).1 ≡ r.value key s + total costs)
  record_all_lem key [] s pos h = (ground arith, omega arith)
  record_all_lem key ((cost, now) ∷ later) s pos (at, h) =
      let (warned, sum) = record_cost_lem cost now key s pos at in
      let (n, sum') =
        record_all_lem key later (record_cost r limiter tenant cost cap_override now s).1 pos h in
      (ground (arith, warned, sum, n), omega (arith, sum, sum'))

-- ===== src/Quota/SpendCap.antt =====
-- apps/gateway/src/quota/spend-cap.ts, `priceFor` and `SpendTracker`. The table is the list of its rows;
-- the clock and the start of the current month are arguments. Costs are micro-dollars.
pub mod Price
use vibe_shield.Prelude.{
  ℕ, ◌+◌, ◌*◌, ◌/◌, Bool, true, false, ◌&&◌, List, [], ◌∷◌, Option, none, some, Text, codes,
  same_text, leb, select, lookup, if◌then◌else◌, Result, ok, err,
}
use vibe_shield.Quota.RateLimit.{or_else}

pub record ModelPrice : Type 0 where
  pub input_per_million : ℕ
  pub output_per_million : ℕ

abbrev pub price : ℕ → ℕ → ModelPrice
price i o = record { input_per_million = i; output_per_million = o }

abbrev pub pricing : List (Text × ModelPrice)
pricing =
    (codes "claude-sonnet-4-6", price 3000000 15000000)
    ∷ (codes "claude-sonnet-4-6-20251001", price 3000000 15000000)
    ∷ (codes "claude-opus-4-7", price 15000000 75000000)
    ∷ (codes "claude-haiku-4-5-20251001", price 800000 4000000)
    ∷ (codes "claude-3-5-sonnet-20241022", price 3000000 15000000)
    ∷ (codes "claude-3-5-haiku-20241022", price 800000 4000000)
    ∷ []

abbrev pub fallback_price : ModelPrice
fallback_price = price 15000000 75000000

abbrev pub or_fallback : Option ModelPrice → ModelPrice
or_fallback none = fallback_price
or_fallback (some p) = p

abbrev pub cost_at : ModelPrice → ℕ → ℕ → ℕ
cost_at p input_tokens output_tokens =
    input_tokens * p.input_per_million / 1000000 + output_tokens * p.output_per_million / 1000000

unfoldable pub price_for : Text → ℕ → ℕ → ℕ
price_for model input_tokens output_tokens =
    cost_at (or_fallback (lookup model pricing)) input_tokens output_tokens

pub record SpendRecord : Type 0 where
  pub tenant_id : Text
  pub app_id : Text
  pub model : Text
  pub input_tokens : ℕ
  pub output_tokens : ℕ
  pub cost_microdollars : ℕ
  pub created_at : ℕ

pub record SpendCapExceeded : Type 0 where
  pub cap_microdollars : ℕ
  pub current_microdollars : ℕ

-- A completed call, as `record` takes it.
pub record Usage : Type 0 where
  pub tenant_id : Text
  pub app_id : Text
  pub model : Text
  pub input_tokens : ℕ
  pub output_tokens : ℕ

abbrev pub default_cap : ℕ
default_cap = 500000000

abbrev pub sum_costs : List SpendRecord → ℕ
sum_costs [] = 0
sum_costs (r ∷ rows) = r.cost_microdollars + sum_costs rows

-- `currentMonthSpend`
unfoldable pub current_month_spend : Text → ℕ → List SpendRecord → ℕ
current_month_spend tenant_id month_start rows =
    sum_costs (select (λ r. same_text r.tenant_id tenant_id && leb month_start r.created_at) rows)

-- The argument `limit` is the tenant's override.
unfoldable pub check_cap :
    Text → Option ℕ → ℕ → List SpendRecord → Result SpendCapExceeded (Unit {0})
check_cap tenant_id limit month_start rows =
    let ceiling = or_else limit default_cap in
    let total = current_month_spend tenant_id month_start rows in
    if leb ceiling total
    then err (record { cap_microdollars = ceiling; current_microdollars = total })
    else ok tt

unfoldable pub record_usage : Usage → ℕ → List SpendRecord → List SpendRecord
record_usage u now rows =
    record {
      tenant_id = u.tenant_id;
      app_id = u.app_id;
      model = u.model;
      input_tokens = u.input_tokens;
      output_tokens = u.output_tokens;
      cost_microdollars = price_for u.model u.input_tokens u.output_tokens;
      created_at = now;
    }
    ∷ rows

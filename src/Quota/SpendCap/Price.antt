-- ===== src/Quota/SpendCap/Price.antt =====
-- What is priced, recorded and checked.
use vibe_shield.Prelude.{
  ℕ, zero, suc, All, ◌+◌, ◌*◌, ◌≤◌, ◌≡◌, refl, ◌&&◌, List, [], ◌∷◌, none, Text, same_text, leb,
  lookup, if◌then◌else◌, arith, Bool-cases, inl, inr,
}
use vibe_shield.Quota.SpendCap.{
  ModelPrice, pricing, fallback_price, or_fallback, cost_at, price_for, SpendRecord, Usage,
  current_month_spend, record_usage,
}

abbrev IsAtMost : ModelPrice → ModelPrice → Type 0
IsAtMost p q =
    (p.input_per_million ≤ q.input_per_million) × (p.output_per_million ≤ q.output_per_million)

lookup-IsAtMost :
    (model : Text) (prices : List (Text × ModelPrice))
    → All (λ (e : Text × ModelPrice). IsAtMost e.1 fallback_price) prices
    → IsAtMost (or_fallback (lookup model prices)) fallback_price
lookup-IsAtMost model [] h = (omega arith, omega arith)
lookup-IsAtMost model ((name, p) ∷ prices) (h, hs) = elim (Bool-cases (same_text name model)) [
  | inl q ↦ rw q h
  | inr q ↦ rw q (lookup-IsAtMost model prices hs)
]

pricing-IsAtMost : All (λ (e : Text × ModelPrice). IsAtMost e.1 fallback_price) pricing
pricing-IsAtMost = (
  (omega arith, omega arith),
  (
    (omega arith, omega arith),
    (
      (omega arith, omega arith),
      ((omega arith, omega arith), ((omega arith, omega arith), ((omega arith, omega arith), tt))),
    ),
  ),
)

mul_le : (n a b : ℕ) → a ≤ b → n * a ≤ n * b
mul_le zero a b h = omega arith
mul_le (suc n) a b h = omega (arith, mul_le n a b h)

-- No model is dearer than one that the table does not know: an unknown model is never priced too low.
pub price_for_fallback :
    (model unknown : Text) (input output : ℕ)
    → lookup unknown pricing ≡ none
    → price_for model input output ≤ price_for unknown input output
unfolding price_for
price_for_fallback model unknown input output h =
    let (i, o) = lookup-IsAtMost model pricing pricing-IsAtMost in
    let p = or_fallback (lookup model pricing) in
    let dearest : price_for unknown input output ≡ cost_at fallback_price input output =
      rw (h, price_for) refl in
    rw dearest (
      omega (
        arith,
        mul_le input p.input_per_million 15000000 i,
        mul_le output p.output_per_million 75000000 o,
      ))

-- Recording a call adds its price to the spend of its tenant in the month it falls in, and leaves
-- every other tenant's spend, and every later month's, as they are.
pub current_month_spend-record_usage :
    (u : Usage) (now : ℕ) (tenant : Text) (month_start : ℕ) (rows : List SpendRecord)
    → current_month_spend tenant month_start (record_usage u now rows)
      ≡ (if same_text u.tenant_id tenant && leb month_start now
          then price_for u.model u.input_tokens u.output_tokens
          else 0)
        + current_month_spend tenant month_start rows
unfolding current_month_spend record_usage
current_month_spend-record_usage u now tenant month_start rows =
    elim (Bool-cases (same_text u.tenant_id tenant && leb month_start now)) [
      | inl q ↦ rw q refl
      | inr q ↦ rw q (omega arith)
    ]

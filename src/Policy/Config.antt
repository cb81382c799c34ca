-- ===== src/Policy/Config.antt =====
-- A policy (apps/gateway/src/policy/schema.ts, `PolicyConfig`).
use vibe_shield.Prelude.{ℕ, Bool, List, Option, Text}
use vibe_shield.Policy.Reid.{ReidPolicy}

pub record PolicyConfig : Type 0 where
  pub name : Text
  pub allowed_models : List Text
  pub allowed_apps : List Text
  pub max_tokens_ceiling : Option ℕ
  pub zdr_required : Bool
  pub rate_limit_per_minute : Option ℕ
  pub spend_cap_microdollars : Option ℕ
  pub reid : ReidPolicy

-- ===== src/Policy/BuiltIn.antt =====
-- apps/gateway/src/policy/built-in.ts: the policies that a resolver starts with.
use vibe_shield.Prelude.{true, false, List, [], ◌∷◌, none, some, codes}
use vibe_shield.Policy.Reid.{full, partial, full_policy, converter_output_policy}
use vibe_shield.Policy.Config.{PolicyConfig}

abbrev pub strict_bookkeeping : PolicyConfig
strict_bookkeeping = record {
  name = codes "cpa-bookkeeping-strict";
  allowed_models =
      codes "claude-sonnet-4-6"
      ∷ codes "claude-sonnet-4-6-20251001"
      ∷ codes "claude-haiku-4-5-20251001"
      ∷ [];
  allowed_apps = codes "mybooks" ∷ codes "trial-balance" ∷ [];
  max_tokens_ceiling = some 4096;
  zdr_required = true;
  rate_limit_per_minute = none;
  spend_cap_microdollars = none;
  reid = record {
    mode = partial;
    allowed_entity_types = codes "EMAIL_ADDRESS" ∷ codes "PHONE_NUMBER" ∷ [];
    per_role_overrides = (codes "partner", full) ∷ [];
  };
}

abbrev pub balanced_bookkeeping : PolicyConfig
balanced_bookkeeping = record {
  name = codes "cpa-bookkeeping-balanced";
  allowed_models = [];
  allowed_apps = codes "mybooks" ∷ codes "trial-balance" ∷ [];
  max_tokens_ceiling = some 8192;
  zdr_required = false;
  rate_limit_per_minute = none;
  spend_cap_microdollars = none;
  reid = full_policy;
}

abbrev pub tax_research : PolicyConfig
tax_research = record {
  name = codes "tax-research";
  allowed_models =
      codes "claude-opus-4-7" ∷ codes "claude-sonnet-4-6" ∷ codes "claude-sonnet-4-6-20251001" ∷ [];
  allowed_apps = codes "tax-research" ∷ [];
  max_tokens_ceiling = none;
  zdr_required = true;
  rate_limit_per_minute = none;
  spend_cap_microdollars = none;
  reid = full_policy;
}

abbrev pub internal_only : PolicyConfig
internal_only = record {
  name = codes "internal-only";
  allowed_models = [];
  allowed_apps = [];
  max_tokens_ceiling = none;
  zdr_required = false;
  rate_limit_per_minute = none;
  spend_cap_microdollars = none;
  reid = full_policy;
}

abbrev pub converter_output : PolicyConfig
converter_output = record {
  name = codes "cpa-converter-output";
  allowed_models =
      codes "claude-sonnet-4-6"
      ∷ codes "claude-sonnet-4-6-20251001"
      ∷ codes "claude-haiku-4-5-20251001"
      ∷ [];
  allowed_apps = codes "converter" ∷ [];
  max_tokens_ceiling = some 8192;
  zdr_required = true;
  rate_limit_per_minute = none;
  spend_cap_microdollars = none;
  reid = converter_output_policy;
}

abbrev pub built_in_policies : List PolicyConfig
built_in_policies =
    strict_bookkeeping ∷ balanced_bookkeeping ∷ tax_research ∷ internal_only ∷ converter_output ∷ []

abbrev pub default_policy : PolicyConfig
default_policy = balanced_bookkeeping

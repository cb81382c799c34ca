-- ===== src/Policy/Reid.antt =====
-- apps/gateway/src/policy/reid-policy.ts: which entity types are re-identified. The literals of
-- the two policies are the data of the source; a role's override is looked up among own keys.
use vibe_shield.Prelude.{Bool, true, false, List, [], Option, none, some, Text, lookup, includes}

pub data ReidMode : Type 0 where
  full partial nothing : ReidMode

pub record ReidPolicy : Type 0 where
  pub mode : ReidMode
  pub allowed_entity_types : List Text
  pub per_role_overrides : List (Text × ReidMode)

abbrev pub full_policy : ReidPolicy
full_policy = record { mode = full; allowed_entity_types = []; per_role_overrides = [] }

abbrev pub none_policy : ReidPolicy
none_policy = record { mode = nothing; allowed_entity_types = []; per_role_overrides = [] }

-- The policy of the converter's messages: its cleartext goes to the output file alone.
abbrev pub converter_output_policy : ReidPolicy
converter_output_policy = record {
  mode = nothing;
  allowed_entity_types = [];
  per_role_overrides = [];
}

unfoldable pub effective_mode : ReidPolicy → Option Text → ReidMode
effective_mode policy none = policy.mode
effective_mode policy (some role) = elim (lookup role policy.per_role_overrides) [
  | none ↦ policy.mode
  | some mode ↦ mode
]

unfoldable pub should_resolve : ReidPolicy → Option Text → Text → Bool
should_resolve policy role entity_type = elim (effective_mode policy role) [
  | full ↦ true
  | nothing ↦ false
  | partial ↦ includes entity_type policy.allowed_entity_types
]

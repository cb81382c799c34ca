-- ===== src/Proxy/Reidentify.antt =====
-- apps/gateway/src/proxy/reidentifier.ts. The vault's `resolve` in the session is the argument
-- `vault`, a function of the token: the look-ups are made at one time, and none fails. JSON
-- values are trees; a number stands for itself. The deep copy of the response is the response, which
-- is parsed JSON.
pub mod Collect
pub mod Laws
use vibe_shield.Prelude.{
  ℕ, Bool, true, false, List, [], ◌∷◌, ◌++◌, Option, none, some, Text, same_text, lookup, includes,
  if◌then◌else◌,
}
use vibe_shield.Token.{Piece, unit, token, pieces, tokens_of, replace_tokens}
use vibe_shield.Policy.Reid.{ReidPolicy, full_policy, should_resolve}

mutual
  pub data Json : Type 0 where
    null : Json
    boolean : Bool → Json
    number : ℕ → Json
    string : Text → Json
    array : Items → Json
    object : Fields → Json

  pub data Items : Type 0 where
    end : Items
    item : Json → Items → Items

  pub data Fields : Type 0 where
    close : Fields
    field : Text → Json → Fields → Fields

-- A block of the content: what the loop changes of it, and its other fields.
pub data Block : Type 0 where
  text_block : Text → Fields → Block
  tool_use : Json → Fields → Block
  tool_result : Option Json → Fields → Block
  other_block : Fields → Block

abbrev pub or_keep : Text → Option Text → Text
or_keep t none = t
or_keep t (some s) = s

-- Group 1 of the first match.
abbrev pub first_type : List Piece → Option Text
first_type [] = none
first_type (unit c ∷ ps) = first_type ps
first_type (token name whole ∷ ps) = some name

unfoldable pub parse_entity_type : Text → Option Text
parse_entity_type t = first_type (pieces t)

-- `into.add` of each match.
abbrev pub add_all : List Text → List Text → List Text
add_all [] into = into
add_all (t ∷ ts) into = add_all ts (if includes t into then into else t ∷ into)

abbrev pub collect_text : Text → List Text → List Text
collect_text s into = add_all (tokens_of (pieces s)) into

-- `collectTokensFromContent`
unfoldable mutual
  pub collect : Json → List Text → List Text
  collect (string s) into = collect_text s into
  collect (array xs) into = collect_items xs into
  collect (object fs) into = collect_fields fs into
  collect null into = into
  collect (boolean b) into = into
  collect (number n) into = into

  pub collect_items : Items → List Text → List Text
  collect_items end into = into
  collect_items (item v vs) into = collect_items vs (collect v into)

  pub collect_fields : Fields → List Text → List Text
  collect_fields close into = into
  collect_fields (field k v fs) into = collect_fields fs (collect v into)

abbrev pub collect_block : Block → List Text → List Text
collect_block (text_block s rest) into = collect_fields rest (collect_text s into)
collect_block (tool_use input rest) into = collect_fields rest (collect input into)
collect_block (tool_result none rest) into = collect_fields rest into
collect_block (tool_result (some content) rest) into = collect_fields rest (collect content into)
collect_block (other_block rest) into = collect_fields rest into

abbrev pub collect_content : List Block → List Text → List Text
collect_content [] into = into
collect_content (b ∷ bs) into = collect_content bs (collect_block b into)

-- `walkAndReplace`
unfoldable mutual
  pub walk : (Text → Text) → Json → Json
  walk f (string s) = string (f s)
  walk f (array xs) = array (walk_items f xs)
  walk f (object fs) = object (walk_fields f fs)
  walk f null = null
  walk f (boolean b) = boolean b
  walk f (number n) = number n

  pub walk_items : (Text → Text) → Items → Items
  walk_items f end = end
  walk_items f (item v vs) = item (walk f v) (walk_items f vs)

  pub walk_fields : (Text → Text) → Fields → Fields
  walk_fields f close = close
  walk_fields f (field k v fs) = field k (walk f v) (walk_fields f fs)

-- The loop over the blocks of the content.
abbrev pub replace_block : (Text → Text) → Block → Block
replace_block f (text_block s rest) = text_block (f s) rest
replace_block f (tool_use input rest) = tool_use (walk f input) rest
replace_block f (tool_result none rest) = tool_result none rest
replace_block f (tool_result (some content) rest) = tool_result (some (walk f content)) rest
replace_block f (other_block rest) = other_block rest

abbrev pub replace_content : (Text → Text) → List Block → List Block
replace_content f [] = []
replace_content f (b ∷ bs) = replace_block f b ∷ replace_content f bs

-- `deps.policy ?? FULL_POLICY`
abbrev pub policy_or_full : Option ReidPolicy → ReidPolicy
policy_or_full none = full_policy
policy_or_full (some policy) = policy

module _ (vault : Text → Option Text) (policy : Option ReidPolicy) (role : Option Text) where
  -- What is set for a token: nothing where it has no type, the policy forbids the type, or the vault
  -- does not know it.
  unfoldable pub resolve_token : Text → Option Text
  resolve_token t = elim (parse_entity_type t) [
    | none ↦ none
    | some entity_type ↦
        if should_resolve (policy_or_full policy) role entity_type then vault t else none
  ]

  -- The map `resolved`.
  unfoldable pub resolve_all : List Text → List (Text × Text)
  resolve_all [] = []
  resolve_all (t ∷ ts) = elim (resolve_token t) [
    | none ↦ resolve_all ts
    | some s ↦ (t, s) ∷ resolve_all ts
  ]

  abbrev pub replace_resolved : List (Text × Text) → List Block → List Block
  replace_resolved [] content = content
  replace_resolved (e ∷ resolved) content =
      replace_content (replace_tokens (λ t. or_keep t (lookup t (e ∷ resolved)))) content

  unfoldable pub reidentify_response : List Block → List Block
  reidentify_response content = replace_resolved (resolve_all (collect_content content [])) content

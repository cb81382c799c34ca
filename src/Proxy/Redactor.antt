-- ===== src/Proxy/Redactor.antt =====
-- apps/gateway/src/proxy/redactor.ts. The engine is an argument, what it answers for a text, and so
-- is the vault's `allocate` in the session; what either throws is an `E`. The copy that the source
-- makes of the request first is the request, which is parsed JSON. A block of a type that the source
-- does not name, and every field that it does not set, stay as they are.
pub mod Relation
pub mod Clean
pub mod Reversible
use vibe_shield.Prelude.{
  ℕ, zero, suc, ◌-◌, Bool, List, [], ◌∷◌, ◌++◌, map, Option, none, some, Text, same_text, take,
  length, if◌then◌else◌, Result, ok, err,
}
use vibe_shield.Prelude.Stateful.{Action, pure, lift, then_do, ◌>>=◌, ◌>>◌}
use vibe_shield.Proxy.Reidentify.{
  Json, null, boolean, number, string, array, object, Items, end, item, Fields, close, field, Block,
  text_block, tool_use, tool_result, other_block,
}

-- An entry of the engine's tokens.
pub record EngineToken : Type 0 where
  pub token : Text
  pub entity_type : Text
  pub cleartext : Text

-- An entry of the engine's misses: the fields that are kept.
pub record EngineMiss : Type 0 where
  pub backstop_name : Text
  pub sample_hash : Text
  pub severity : Text

pub record EngineResult : Type 0 where
  pub redacted_text : Text
  pub tokens : List EngineToken
  pub misses : Option (List EngineMiss)

pub record Allocation : Type 0 where
  pub token : Text
  pub cleartext : Text
  pub entity_type : Text

pub record MissInput : Type 0 where
  pub pattern : Text
  pub sample_hash : Text
  pub severity : Text

-- The vault, and the two lists that the source fills.
pub record Log (V : Type 0) : Type 0 where
  pub vault : V
  pub allocations : List Allocation
  pub misses : List MissInput

pub record TextPart : Type 0 where
  pub text : Text
  pub rest : Fields

pub data System : Type 0 where
  system_text : Text → System
  system_parts : List TextPart → System

pub data Content : Type 0 where
  plain : Text → Content
  blocks : List Block → Content

pub record Message : Type 0 where
  pub content : Content
  pub rest : Fields

pub record Prompt : Type 0 where
  pub system : Option System
  pub messages : List Message

abbrev pub to_miss_input : EngineMiss → MissInput
to_miss_input m = record {
  pattern = m.backstop_name;
  sample_hash = m.sample_hash;
  severity = m.severity;
}

-- `units.join(separator)`
abbrev pub intersperse : Text → Text → Text
intersperse u [] = []
intersperse u (c ∷ []) = c ∷ []
intersperse u (c ∷ d ∷ s) = c ∷ (u ++ intersperse u (d ∷ s))

-- The search goes on behind a match: the number says how much of it is left.
abbrev pub replace_from : Text → Text → ℕ → Text → Text
replace_from t u k [] = []
replace_from t u (suc k) (c ∷ s) = replace_from t u k s
replace_from t u zero (c ∷ s) =
    let hit = same_text (take (length t) (c ∷ s)) t in
    let rest = replace_from t u (if hit then length t - 1 else 0) s in
    if hit then u ++ rest else c ∷ rest

-- `text.split(t).join(u)`
unfoldable pub split_join : Text → Text → Text → Text
split_join [] u s = intersperse u s
split_join (c ∷ t) u s = replace_from (c ∷ t) u 0 s

abbrev pub miss_inputs : Option (List EngineMiss) → List MissInput
miss_inputs none = []
miss_inputs (some ms) = map to_miss_input ms

module _ {V E : Type 0} (engine : Text → Result E EngineResult)
    (allocate : Text → Text → Action V E Text) where
  unfoldable pub call_engine : Text → Action (Log V) E EngineResult
  call_engine text = lift (engine text)

  unfoldable pub record_misses : Option (List EngineMiss) → Action (Log V) E (Unit {0})
  record_misses ms log = (ok tt, record log { misses = log.misses ++ miss_inputs ms })

  -- `allocations.push` behind a call of the vault that succeeded.
  abbrev pub pushed : EngineToken → Log V → Result E Text × V → Result E Text × Log V
  pushed entry log (err e, vault) = (err e, record log { vault = vault })
  pushed entry log (ok token, vault) = (
    ok token,
    record log {
      vault = vault;
      allocations =
          log.allocations
          ++ record { token = token; cleartext = entry.cleartext; entity_type = entry.entity_type }
            ∷ [];
    },
  )

  unfoldable pub allocate_token : EngineToken → Action (Log V) E Text
  allocate_token entry log = pushed entry log (allocate entry.entity_type entry.cleartext log.vault)

  unfoldable pub replace_each : List EngineToken → Text → Action (Log V) E Text
  replace_each [] redacted = pure redacted
  replace_each (entry ∷ entries) redacted = do
    token ← allocate_token entry
    replace_each entries (split_join entry.token token redacted)

  abbrev pub redact_result : EngineResult → Action (Log V) E Text
  redact_result result = do
    record_misses result.misses
    elim result.tokens [
      | [] ↦ pure result.redacted_text
      | entry ∷ entries ↦ replace_each (entry ∷ entries) result.redacted_text
    ]

  unfoldable pub redact_string : Text → Action (Log V) E Text
  redact_string [] = pure []
  redact_string (c ∷ s) = do result ← call_engine (c ∷ s); redact_result result

  -- `redactJsonStrings`
  unfoldable mutual
    pub redact_json : Json → Action (Log V) E Json
    redact_json (string s) = do t ← redact_string s; pure (string t)
    redact_json (array xs) = do ys ← redact_items xs; pure (array ys)
    redact_json (object fs) = do gs ← redact_fields fs; pure (object gs)
    redact_json null = pure null
    redact_json (boolean b) = pure (boolean b)
    redact_json (number n) = pure (number n)

    pub redact_items : Items → Action (Log V) E Items
    redact_items end = pure end
    redact_items (item v vs) = do w ← redact_json v; ws ← redact_items vs; pure (item w ws)

    pub redact_fields : Fields → Action (Log V) E Fields
    redact_fields close = pure close
    redact_fields (field k v fs) = do w ← redact_json v; gs ← redact_fields fs; pure (field k w gs)

  unfoldable pub redact_tool_content : Option Json → Action (Log V) E (Option Json)
  redact_tool_content (some (string s)) = do t ← redact_string s; pure (some (string t))
  redact_tool_content (some (array xs)) = do v ← redact_json (array xs); pure (some v)
  redact_tool_content (some null) = pure (some null)
  redact_tool_content (some (boolean b)) = pure (some (boolean b))
  redact_tool_content (some (number n)) = pure (some (number n))
  redact_tool_content (some (object fs)) = pure (some (object fs))
  redact_tool_content none = pure none

  unfoldable pub redact_block : Block → Action (Log V) E Block
  redact_block (text_block s rest) = do t ← redact_string s; pure (text_block t rest)
  redact_block (tool_use input rest) = do v ← redact_json input; pure (tool_use v rest)
  redact_block (tool_result content rest) = do
    c ← redact_tool_content content
    pure (tool_result c rest)
  redact_block (other_block rest) = pure (other_block rest)

  unfoldable pub redact_blocks : List Block → Action (Log V) E (List Block)
  redact_blocks [] = pure []
  redact_blocks (b ∷ bs) = do c ← redact_block b; cs ← redact_blocks bs; pure (c ∷ cs)

  unfoldable pub redact_content : Content → Action (Log V) E Content
  redact_content (plain s) = do t ← redact_string s; pure (plain t)
  redact_content (blocks bs) = do cs ← redact_blocks bs; pure (blocks cs)

  unfoldable pub redact_messages : List Message → Action (Log V) E (List Message)
  redact_messages [] = pure []
  redact_messages (m ∷ ms) = do
    content ← redact_content m.content
    rest ← redact_messages ms
    pure (record m { content = content } ∷ rest)

  unfoldable pub redact_parts : List TextPart → Action (Log V) E (List TextPart)
  redact_parts [] = pure []
  redact_parts (part ∷ parts) = do
    text ← redact_string part.text
    rest ← redact_parts parts
    pure (record part { text = text } ∷ rest)

  unfoldable pub redact_system : Option System → Action (Log V) E (Option System)
  redact_system none = pure none
  redact_system (some (system_text s)) = do t ← redact_string s; pure (some (system_text t))
  redact_system (some (system_parts parts)) = do
    redacted ← redact_parts parts
    pure (some (system_parts redacted))

  unfoldable pub redact_prompt : Prompt → Action (Log V) E Prompt
  redact_prompt prompt = do
    system ← redact_system prompt.system
    messages ← redact_messages prompt.messages
    pure (record { system = system; messages = messages })

  -- `redactRequest`: the redacted request, and the lists of its allocations and misses.
  unfoldable pub redact_request : Prompt → V → Result E Prompt × Log V
  redact_request prompt vault =
      redact_prompt prompt (record { vault = vault; allocations = []; misses = [] })

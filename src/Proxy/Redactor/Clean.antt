-- ===== src/Proxy/Redactor/Clean.antt =====
-- What the redactor makes of a request is its redaction.
use vibe_shield.Prelude.{
  ◌≡◌, refl, sym, subst, inl, inr, List, [], ◌∷◌, Option, none, some, Text, All, Result, ok, err,
  Result-cases,
}
use vibe_shield.Prelude.Stateful.{
  Action, pure, Holds, Ensures, Ensures->>=, Ensures-weaken, Ensures-map, Ensures-map₂,
}
use vibe_shield.Proxy.Reidentify.{
  Json, null, boolean, number, string, array, object, Items, end, item, Fields, close, field, Block,
  text_block, tool_use, tool_result, other_block,
}
use vibe_shield.Proxy.Redactor.Relation.{
  Follows, start, next, Answers, IsReplaced, Redacts, RedactsJson, RedactsItems, RedactsFields,
  RedactsResult, RedactsBlock, RedactsBlocks, RedactsContent, RedactsMessages, RedactsParts,
  RedactsSystem, RedactsPrompt,
}
use vibe_shield.Proxy.Redactor.{
  EngineToken, EngineMiss, EngineResult, Log, TextPart, System, system_text, system_parts, Content,
  plain, blocks, Message, Prompt, redact_request, split_join, call_engine, record_misses, pushed,
  allocate_token, replace_each, redact_result, redact_string, redact_json, redact_items,
  redact_fields, redact_tool_content, redact_block, redact_blocks, redact_content, redact_messages,
  redact_parts, redact_system, redact_prompt,
}

module _ {V E : Type 0} (engine : Text → Result E EngineResult)
    (allocate : Text → Text → Action V E Text) (I : Log V → Type 0)
    (Stands : EngineToken → Text → Type 0)
    (recorded : (ms : Option (List EngineMiss)) (l : Log V)
      → I l
      → Holds {E = E} I (λ (u : Unit {0}). Unit {0}) (record_misses engine allocate ms l))
    (allocated : (s : Text) (r : EngineResult)
      → engine s ≡ ok r
      → All (λ e. Ensures I (Stands e) (allocate_token engine allocate e)) r.tokens) where
  replace_each-IsReplaced :
      (es : List EngineToken) (s : Text)
      → All (λ e. Ensures I (Stands e) (allocate_token engine allocate e)) es
      → Ensures I (IsReplaced Stands es s) (replace_each engine allocate es s)
  unfolding replace_each
  replace_each-IsReplaced [] s h = λ l i. (refl, i)
  replace_each-IsReplaced (e ∷ es) s (h, hs) =
      Ensures->>= I (Stands e) (IsReplaced Stands (e ∷ es) s) (allocate_token engine allocate e) _ h
        (λ token stands.
          Ensures-weaken I (IsReplaced Stands es (split_join e.token token s))
            (IsReplaced Stands (e ∷ es) s) _
            (replace_each-IsReplaced es (split_join e.token token s) hs)
            (λ t w. (token, stands, w)))

  call_engine-ok : (s : Text) → Ensures I (λ r. engine s ≡ ok r) (call_engine engine allocate s)
  unfolding call_engine
  call_engine-ok s l i = elim (Result-cases (engine s)) [
    | inl (r, e) ↦ subst (λ x. Holds I (λ r. engine s ≡ ok r) (x, l)) (sym e) (e, i)
    | inr (x, e) ↦ subst (λ x. Holds I (λ r. engine s ≡ ok r) (x, l)) (sym e) i
  ]

  result_cases :
      (ts : List EngineToken) (s : Text)
      → All (λ e. Ensures I (Stands e) (allocate_token engine allocate e)) ts
      → Ensures I (IsReplaced Stands ts s) (elim ts as (λ _. Action (Log V) E Text) [
        | [] ↦ pure s
        | entry ∷ entries ↦ replace_each engine allocate (entry ∷ entries) s
      ])
  result_cases [] s h = λ l i. (refl, i)
  result_cases (t ∷ ts) s h = replace_each-IsReplaced (t ∷ ts) s h

  pub redact_string-Redacts :
      (s : Text) → Ensures I (Redacts engine Stands s) (redact_string engine allocate s)
  unfolding redact_string
  redact_string-Redacts [] = λ l i. (refl, i)
  redact_string-Redacts (c ∷ s) =
      Ensures->>= I (λ r. engine (c ∷ s) ≡ ok r) (Redacts engine Stands (c ∷ s))
        (call_engine engine allocate (c ∷ s)) (redact_result engine allocate)
        (call_engine-ok (c ∷ s))
        (λ r e.
          Ensures->>= I (λ _. Unit) (Redacts engine Stands (c ∷ s))
            (record_misses engine allocate r.misses) _ (recorded r.misses)
            (λ _ _.
              Ensures-weaken I (IsReplaced Stands r.tokens r.redacted_text)
                (Redacts engine Stands (c ∷ s)) _
                (result_cases r.tokens r.redacted_text (allocated (c ∷ s) r e)) (λ t w. (r, e, w))))

  mutual
    unfolding redact_json redact_items redact_fields RedactsJson RedactsItems RedactsFields

    pub redact_json-RedactsJson :
        (v : Json) → Ensures I (RedactsJson engine Stands v) (redact_json engine allocate v)
    redact_json-RedactsJson (string s) =
        Ensures-map I (Redacts engine Stands s) (RedactsJson engine Stands (string s))
          (redact_string engine allocate s) string (redact_string-Redacts s) (λ t h. h)
    redact_json-RedactsJson (array xs) =
        Ensures-map I (RedactsItems engine Stands xs) (RedactsJson engine Stands (array xs))
          (redact_items engine allocate xs) array (redact_items-RedactsItems xs) (λ t h. h)
    redact_json-RedactsJson (object fs) =
        Ensures-map I (RedactsFields engine Stands fs) (RedactsJson engine Stands (object fs))
          (redact_fields engine allocate fs) object (redact_fields-RedactsFields fs) (λ t h. h)
    redact_json-RedactsJson null = λ l i. (tt, i)
    redact_json-RedactsJson (boolean b) = λ l i. (refl, i)
    redact_json-RedactsJson (number n) = λ l i. (refl, i)

    pub redact_items-RedactsItems :
        (vs : Items) → Ensures I (RedactsItems engine Stands vs) (redact_items engine allocate vs)
    redact_items-RedactsItems end = λ l i. (tt, i)
    redact_items-RedactsItems (item v vs) =
        Ensures-map₂ I (RedactsJson engine Stands v) (RedactsItems engine Stands vs)
          (RedactsItems engine Stands (item v vs)) (redact_json engine allocate v)
          (redact_items engine allocate vs) item (redact_json-RedactsJson v)
          (redact_items-RedactsItems vs) (λ a p b q. (p, q))

    pub redact_fields-RedactsFields :
        (fs : Fields)
        → Ensures I (RedactsFields engine Stands fs) (redact_fields engine allocate fs)
    redact_fields-RedactsFields close = λ l i. (tt, i)
    redact_fields-RedactsFields (field k v fs) =
        Ensures-map₂ I (RedactsJson engine Stands v) (RedactsFields engine Stands fs)
          (RedactsFields engine Stands (field k v fs)) (redact_json engine allocate v)
          (redact_fields engine allocate fs) (field k) (redact_json-RedactsJson v)
          (redact_fields-RedactsFields fs) (λ a p b q. (refl, p, q))

  tool_content-RedactsResult :
      (c : Option Json)
      → Ensures I (RedactsResult engine Stands c) (redact_tool_content engine allocate c)
  unfolding redact_tool_content RedactsJson
  tool_content-RedactsResult (some (string s)) =
      Ensures-map I (Redacts engine Stands s) (RedactsResult engine Stands (some (string s)))
        (redact_string engine allocate s) (λ t. some (string t)) (redact_string-Redacts s)
        (λ t h. h)
  tool_content-RedactsResult (some (array xs)) =
      Ensures-map I (RedactsJson engine Stands (array xs))
        (RedactsResult engine Stands (some (array xs))) (redact_json engine allocate (array xs))
        some (redact_json-RedactsJson (array xs)) (λ t h. h)
  tool_content-RedactsResult (some null) = λ l i. (refl, i)
  tool_content-RedactsResult (some (boolean b)) = λ l i. (refl, i)
  tool_content-RedactsResult (some (number n)) = λ l i. (refl, i)
  tool_content-RedactsResult (some (object fs)) = λ l i. (refl, i)
  tool_content-RedactsResult none = λ l i. (refl, i)

  redact_block-RedactsBlock :
      (b : Block) → Ensures I (RedactsBlock engine Stands b) (redact_block engine allocate b)
  unfolding redact_block
  redact_block-RedactsBlock (text_block s rest) =
      Ensures-map I (Redacts engine Stands s) (RedactsBlock engine Stands (text_block s rest))
        (redact_string engine allocate s) (λ t. text_block t rest) (redact_string-Redacts s)
        (λ t h. (h, refl))
  redact_block-RedactsBlock (tool_use v rest) =
      Ensures-map I (RedactsJson engine Stands v) (RedactsBlock engine Stands (tool_use v rest))
        (redact_json engine allocate v) (λ t. tool_use t rest) (redact_json-RedactsJson v)
        (λ t h. (h, refl))
  redact_block-RedactsBlock (tool_result c rest) =
      Ensures-map I (RedactsResult engine Stands c)
        (RedactsBlock engine Stands (tool_result c rest)) (redact_tool_content engine allocate c)
        (λ t. tool_result t rest) (tool_content-RedactsResult c) (λ t h. (h, refl))
  redact_block-RedactsBlock (other_block rest) = λ l i. (refl, i)

  redact_blocks-RedactsBlocks :
      (bs : List Block)
      → Ensures I (RedactsBlocks engine Stands bs) (redact_blocks engine allocate bs)
  unfolding redact_blocks
  redact_blocks-RedactsBlocks [] = λ l i. (tt, i)
  redact_blocks-RedactsBlocks (b ∷ bs) =
      Ensures-map₂ I (RedactsBlock engine Stands b) (RedactsBlocks engine Stands bs)
        (RedactsBlocks engine Stands (b ∷ bs)) (redact_block engine allocate b)
        (redact_blocks engine allocate bs) ◌∷◌ (redact_block-RedactsBlock b)
        (redact_blocks-RedactsBlocks bs) (λ c p cs q. (p, q))

  redact_content-RedactsContent :
      (c : Content) → Ensures I (RedactsContent engine Stands c) (redact_content engine allocate c)
  unfolding redact_content
  redact_content-RedactsContent (plain s) =
      Ensures-map I (Redacts engine Stands s) (RedactsContent engine Stands (plain s))
        (redact_string engine allocate s) plain (redact_string-Redacts s) (λ t h. h)
  redact_content-RedactsContent (blocks bs) =
      Ensures-map I (RedactsBlocks engine Stands bs) (RedactsContent engine Stands (blocks bs))
        (redact_blocks engine allocate bs) blocks (redact_blocks-RedactsBlocks bs) (λ t h. h)

  redact_messages-RedactsMessages :
      (ms : List Message)
      → Ensures I (RedactsMessages engine Stands ms) (redact_messages engine allocate ms)
  unfolding redact_messages
  redact_messages-RedactsMessages [] = λ l i. (tt, i)
  redact_messages-RedactsMessages (m ∷ ms) =
      Ensures-map₂ I (RedactsContent engine Stands m.content) (RedactsMessages engine Stands ms)
        (RedactsMessages engine Stands (m ∷ ms)) (redact_content engine allocate m.content)
        (redact_messages engine allocate ms) (λ c rest. record m { content = c } ∷ rest)
        (redact_content-RedactsContent m.content) (redact_messages-RedactsMessages ms)
        (λ c p cs q. (p, refl, q))

  redact_parts-RedactsParts :
      (ps : List TextPart)
      → Ensures I (RedactsParts engine Stands ps) (redact_parts engine allocate ps)
  unfolding redact_parts
  redact_parts-RedactsParts [] = λ l i. (tt, i)
  redact_parts-RedactsParts (p ∷ ps) =
      Ensures-map₂ I (Redacts engine Stands p.text) (RedactsParts engine Stands ps)
        (RedactsParts engine Stands (p ∷ ps)) (redact_string engine allocate p.text)
        (redact_parts engine allocate ps) (λ t rest. record p { text = t } ∷ rest)
        (redact_string-Redacts p.text) (redact_parts-RedactsParts ps) (λ c h cs q. (h, refl, q))

  redact_system-RedactsSystem :
      (s : Option System)
      → Ensures I (RedactsSystem engine Stands s) (redact_system engine allocate s)
  unfolding redact_system
  redact_system-RedactsSystem none = λ l i. (tt, i)
  redact_system-RedactsSystem (some (system_text s)) =
      Ensures-map I (Redacts engine Stands s) (RedactsSystem engine Stands (some (system_text s)))
        (redact_string engine allocate s) (λ t. some (system_text t)) (redact_string-Redacts s)
        (λ t h. h)
  redact_system-RedactsSystem (some (system_parts ps)) =
      Ensures-map I (RedactsParts engine Stands ps)
        (RedactsSystem engine Stands (some (system_parts ps))) (redact_parts engine allocate ps)
        (λ t. some (system_parts t)) (redact_parts-RedactsParts ps) (λ t h. h)

  -- A prompt that is redacted keeps the invariant of the log, and is the redaction of the prompt.
  pub redact_prompt-RedactsPrompt :
      (p : Prompt) → Ensures I (RedactsPrompt engine Stands p) (redact_prompt engine allocate p)
  unfolding redact_prompt
  redact_prompt-RedactsPrompt p =
      Ensures-map₂ I (RedactsSystem engine Stands p.system)
        (RedactsMessages engine Stands p.messages) (RedactsPrompt engine Stands p)
        (redact_system engine allocate p.system) (redact_messages engine allocate p.messages)
        (λ s ms. record { system = s; messages = ms }) (redact_system-RedactsSystem p.system)
        (redact_messages-RedactsMessages p.messages) (λ s h ms q. (h, q))

-- A request that is forwarded is the redaction of the one that came: whatever is not empty in the
-- places that are read is what the engine answered for it, with each of the engine's tokens, in turn,
-- replaced by what the vault answers for the token's type and cleartext, at a state that calls of
-- the vault led to from the one that the redaction found.
pub redact_request-RedactsPrompt :
    {V E : Type 0} (engine : Text → Result E EngineResult)
    (allocate : Text → Text → Action V E Text) (prompt prompt' : Prompt) (vault : V) (log : Log V)
    → redact_request engine allocate prompt vault ≡ (ok prompt', log)
    → RedactsPrompt engine (Answers allocate vault) prompt prompt'
unfolding redact_request
redact_request-RedactsPrompt {V} {E} engine allocate prompt prompt' vault log done =
    (subst (λ r. Holds {E = E} Kept (RedactsPrompt engine (Answers allocate vault) prompt) r) done
      (redact_prompt-RedactsPrompt engine allocate Kept (Answers allocate vault)
        (λ ms l i. unfold record_misses in (tt, i)) (λ s r e. each r.tokens) prompt _ start)).0
  where
    Kept : Log V → Type 0
    Kept l = Follows allocate vault l.vault

    pushed-Answers :
        (e : EngineToken) (l : Log V) (r : Result E Text × V)
        → ((u : Text) → r.0 ≡ ok u → Answers allocate vault e u)
        → Follows allocate vault r.1
        → Holds {E = E} Kept (Answers allocate vault e) (pushed engine allocate e l r)
    pushed-Answers e l (ok t, v) h i = (h t refl, i)
    pushed-Answers e l (err x, v) h i = i

    each :
        (es : List EngineToken)
        → All (λ e. Ensures Kept (Answers allocate vault e) (allocate_token engine allocate e)) es
    each [] = tt
    each (e ∷ es) = (
      λ l i.
          unfold allocate_token in
          pushed-Answers e l (allocate e.entity_type e.cleartext l.vault) (λ u q. (l.vault, i, q))
            (next e.entity_type e.cleartext i),
      each es,
    )

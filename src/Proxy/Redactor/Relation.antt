-- ===== src/Proxy/Redactor/Relation.antt =====
-- What it is for a request to be the redaction of another: every text in the places that the
-- redactor reads is what the engine made of it, with each of the engine's tokens replaced by a text
-- that stands for it, and the rest is the same.
use vibe_shield.Prelude.{◌≡◌, List, [], ◌∷◌, Option, none, some, Text, Result, ok}
use vibe_shield.Prelude.Stateful.{Action}
use vibe_shield.Proxy.Reidentify.{
  Json, null, boolean, number, string, array, object, Items, end, item, Fields, close, field, Block,
  text_block, tool_use, tool_result, other_block,
}
use vibe_shield.Proxy.Redactor.{
  EngineToken, EngineResult, TextPart, System, system_text, system_parts, Content, plain, blocks,
  Message, Prompt, split_join,
}

-- The states of the vault that calls of `allocate` lead to.
pub data Follows {V E : Type 0} (allocate : Text → Text → Action V E Text) (vault : V)
    : V → Type 0 where
  start : Follows allocate vault vault
  next :
      {v : V} (entity cleartext : Text)
      → Follows allocate vault v
      → Follows allocate vault (allocate entity cleartext v).1

-- The text is what the vault answers for the type and the cleartext of the engine's token, at a state
-- that earlier allocations led to.
abbrev pub Answers :
    {V E : Type 0} → (Text → Text → Action V E Text) → V → EngineToken → Text → Type 0
Answers {V} allocate vault e u =
    (v : V) × Follows allocate vault v × ((allocate e.entity_type e.cleartext v).0 ≡ ok u)

-- A text with each token in turn replaced by a text that stands for it.
abbrev pub IsReplaced : (EngineToken → Text → Type 0) → List EngineToken → Text → Text → Type 0
IsReplaced Stands [] s t = s ≡ t
IsReplaced Stands (e ∷ es) s t =
    (u : Text) × Stands e u × IsReplaced Stands es (split_join e.token u s) t

module _ {E : Type 0} (engine : Text → Result E EngineResult)
    (Stands : EngineToken → Text → Type 0) where
  -- The empty text stays; any other becomes the engine's, with its tokens replaced.
  abbrev pub Redacts : Text → Text → Type 0
  Redacts [] t = t ≡ []
  Redacts (c ∷ s) t =
      (r : EngineResult) × (engine (c ∷ s) ≡ ok r) × IsReplaced Stands r.tokens r.redacted_text t

  unfoldable mutual
    pub RedactsJson : Json → Json → Type 0
    RedactsJson (string s) (string t) = Redacts s t
    RedactsJson (array xs) (array ys) = RedactsItems xs ys
    RedactsJson (object fs) (object gs) = RedactsFields fs gs
    RedactsJson null null = Unit
    RedactsJson (boolean a) (boolean b) = a ≡ b
    RedactsJson (number a) (number b) = a ≡ b
    RedactsJson _ _ = ⊥

    pub RedactsItems : Items → Items → Type 0
    RedactsItems end end = Unit
    RedactsItems (item v vs) (item w ws) = RedactsJson v w × RedactsItems vs ws
    RedactsItems _ _ = ⊥

    pub RedactsFields : Fields → Fields → Type 0
    RedactsFields close close = Unit
    RedactsFields (field k v fs) (field l w gs) = (k ≡ l) × RedactsJson v w × RedactsFields fs gs
    RedactsFields _ _ = ⊥

  -- A tool's result is read where it is a text or an array.
  abbrev pub RedactsResult : Option Json → Option Json → Type 0
  RedactsResult (some (string s)) (some v) = RedactsJson (string s) v
  RedactsResult (some (array xs)) (some v) = RedactsJson (array xs) v
  RedactsResult a b = a ≡ b

  abbrev pub RedactsBlock : Block → Block → Type 0
  RedactsBlock (text_block s f) (text_block t g) = Redacts s t × (f ≡ g)
  RedactsBlock (tool_use v f) (tool_use w g) = RedactsJson v w × (f ≡ g)
  RedactsBlock (tool_result c f) (tool_result d g) = RedactsResult c d × (f ≡ g)
  RedactsBlock (other_block f) (other_block g) = f ≡ g
  RedactsBlock _ _ = ⊥

  abbrev pub RedactsBlocks : List Block → List Block → Type 0
  RedactsBlocks [] [] = Unit
  RedactsBlocks (b ∷ bs) (c ∷ cs) = RedactsBlock b c × RedactsBlocks bs cs
  RedactsBlocks _ _ = ⊥

  abbrev pub RedactsContent : Content → Content → Type 0
  RedactsContent (plain s) (plain t) = Redacts s t
  RedactsContent (blocks bs) (blocks cs) = RedactsBlocks bs cs
  RedactsContent _ _ = ⊥

  abbrev pub RedactsMessages : List Message → List Message → Type 0
  RedactsMessages [] [] = Unit
  RedactsMessages (m ∷ ms) (n ∷ ns) =
      RedactsContent m.content n.content × (m.rest ≡ n.rest) × RedactsMessages ms ns
  RedactsMessages _ _ = ⊥

  abbrev pub RedactsParts : List TextPart → List TextPart → Type 0
  RedactsParts [] [] = Unit
  RedactsParts (p ∷ ps) (q ∷ qs) = Redacts p.text q.text × (p.rest ≡ q.rest) × RedactsParts ps qs
  RedactsParts _ _ = ⊥

  abbrev pub RedactsSystem : Option System → Option System → Type 0
  RedactsSystem none none = Unit
  RedactsSystem (some (system_text s)) (some (system_text t)) = Redacts s t
  RedactsSystem (some (system_parts ps)) (some (system_parts qs)) = RedactsParts ps qs
  RedactsSystem _ _ = ⊥

  abbrev pub RedactsPrompt : Prompt → Prompt → Type 0
  RedactsPrompt p q = RedactsSystem p.system q.system × RedactsMessages p.messages q.messages

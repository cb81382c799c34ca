-- ===== src/Proxy/Reidentify/Collect.antt =====
-- The tokens that are collected cover the texts that are replaced.
use vibe_shield.Prelude.{
  ◌≡◌, refl, ap, ap₂, inl, inr, true, List, [], ◌∷◌, none, some, Text, same_text_refl, includes,
  if◌then◌else◌, arith, Bool-cases, All,
}
use vibe_shield.Token.{pieces, tokens_of, replace_tokens}
use vibe_shield.Token.Replace.{render_cong, replace_tokens_same}
use vibe_shield.Proxy.Reidentify.{
  Json, null, boolean, number, string, array, object, Items, end, item, Fields, close, field, Block,
  text_block, tool_use, tool_result, other_block, add_all, collect_text, collect, collect_items,
  collect_fields, collect_block, collect_content, walk, walk_items, walk_fields, replace_block,
  replace_content,
}

-- Every token of the first set is in the second.
abbrev pub IsWithin : List Text → List Text → Type 0
IsWithin ts us = (t : Text) → includes t ts ≡ true → includes t us ≡ true

add_all-grows : (ts into : List Text) → IsWithin into (add_all ts into)
add_all-grows [] into t h = h
add_all-grows (u ∷ ts) into t h = elim (Bool-cases (includes u into)) [
  | inl old ↦ rw old (add_all-grows ts into t h)
  | inr new ↦ rw new (add_all-grows ts (u ∷ into) t (ground (arith, h)))
]

added :
    (u : Text) (into : List Text) → includes u (if includes u into then into else u ∷ into) ≡ true
added u into = elim (Bool-cases (includes u into)) [
  | inl old ↦ rw old old
  | inr new ↦ rw new (rw (same_text_refl u))
]

add_all-includes : (ts into : List Text) → All (λ t. includes t (add_all ts into) ≡ true) ts
add_all-includes [] into = tt
add_all-includes (u ∷ ts) into =
    let next = if includes u into then into else u ∷ into in
    (add_all-grows ts next u (added u into), add_all-includes ts next)

mutual
  unfolding collect

  collect-grows : (v : Json) (into : List Text) → IsWithin into (collect v into)
  collect-grows null into t h = h
  collect-grows (boolean b) into t h = h
  collect-grows (number n) into t h = h
  collect-grows (string s) into t h = add_all-grows (tokens_of (pieces s)) into t h
  collect-grows (array vs) into t h = items-grows vs into t h
  collect-grows (object fs) into t h = fields-grows fs into t h

  items-grows : (vs : Items) (into : List Text) → IsWithin into (collect_items vs into)
  items-grows end into t h = h
  items-grows (item v vs) into t h = items-grows vs (collect v into) t (collect-grows v into t h)

  fields-grows : (fs : Fields) (into : List Text) → IsWithin into (collect_fields fs into)
  fields-grows close into t h = h
  fields-grows (field k v fs) into t h =
      fields-grows fs (collect v into) t (collect-grows v into t h)

block-grows : (b : Block) (into : List Text) → IsWithin into (collect_block b into)
block-grows (text_block s rest) into t h =
    fields-grows rest (collect_text s into) t (add_all-grows (tokens_of (pieces s)) into t h)
block-grows (tool_use v rest) into t h =
    fields-grows rest (collect v into) t (collect-grows v into t h)
block-grows (tool_result none rest) into t h = fields-grows rest into t h
block-grows (tool_result (some v) rest) into t h =
    fields-grows rest (collect v into) t (collect-grows v into t h)
block-grows (other_block rest) into t h = fields-grows rest into t h

content-grows : (bs : List Block) (into : List Text) → IsWithin into (collect_content bs into)
content-grows [] into t h = h
content-grows (b ∷ bs) into t h = content-grows bs (collect_block b into) t (block-grows b into t h)

module _ (f g : Text → Text) (known : List Text)
    (same : (t : Text) → includes t known ≡ true → f t ≡ g t) where
  All-same :
      (ts us : List Text)
      → IsWithin us known
      → All (λ t. includes t us ≡ true) ts
      → All (λ t. f t ≡ g t) ts
  All-same [] us w h = tt
  All-same (t ∷ ts) us w (h, hs) = (same t (w t h), All-same ts us w hs)

  text-agrees :
      (s : Text) (into : List Text)
      → IsWithin (collect_text s into) known
      → replace_tokens f s ≡ replace_tokens g s
  unfolding replace_tokens
  text-agrees s into w = render_cong f g (pieces s) (
      All-same (tokens_of (pieces s)) (collect_text s into) w
        (add_all-includes (tokens_of (pieces s)) into))

  mutual
    unfolding walk collect

    walk-agrees :
        (v : Json) (into : List Text)
        → IsWithin (collect v into) known
        → walk (replace_tokens f) v ≡ walk (replace_tokens g) v
    walk-agrees null into w = refl
    walk-agrees (boolean b) into w = refl
    walk-agrees (number n) into w = refl
    walk-agrees (string s) into w = ap string (text-agrees s into w)
    walk-agrees (array vs) into w = ap array (items-agree vs into w)
    walk-agrees (object fs) into w = ap object (fields-agree fs into w)

    items-agree :
        (vs : Items) (into : List Text)
        → IsWithin (collect_items vs into) known
        → walk_items (replace_tokens f) vs ≡ walk_items (replace_tokens g) vs
    items-agree end into w = refl
    items-agree (item v vs) into w =
        ap₂ item (walk-agrees v into (λ t h. w t (items-grows vs (collect v into) t h)))
          (items-agree vs (collect v into) w)

    fields-agree :
        (fs : Fields) (into : List Text)
        → IsWithin (collect_fields fs into) known
        → walk_fields (replace_tokens f) fs ≡ walk_fields (replace_tokens g) fs
    fields-agree close into w = refl
    fields-agree (field k v fs) into w =
        ap₂ (field k) (walk-agrees v into (λ t h. w t (fields-grows fs (collect v into) t h)))
          (fields-agree fs (collect v into) w)

  block-agrees :
      (b : Block) (into : List Text)
      → IsWithin (collect_block b into) known
      → replace_block (replace_tokens f) b ≡ replace_block (replace_tokens g) b
  block-agrees (text_block s rest) into w =
      ap (λ x. text_block x rest)
        (text-agrees s into (λ t h. w t (fields-grows rest (collect_text s into) t h)))
  block-agrees (tool_use v rest) into w =
      ap (λ x. tool_use x rest)
        (walk-agrees v into (λ t h. w t (fields-grows rest (collect v into) t h)))
  block-agrees (tool_result none rest) into w = refl
  block-agrees (tool_result (some v) rest) into w =
      ap (λ x. tool_result (some x) rest)
        (walk-agrees v into (λ t h. w t (fields-grows rest (collect v into) t h)))
  block-agrees (other_block rest) into w = refl

  pub content-agrees :
      (bs : List Block) (into : List Text)
      → IsWithin (collect_content bs into) known
      → replace_content (replace_tokens f) bs ≡ replace_content (replace_tokens g) bs
  content-agrees [] into w = refl
  content-agrees (b ∷ bs) into w =
      ap₂ ◌∷◌ (block-agrees b into (λ t h. w t (content-grows bs (collect_block b into) t h)))
        (content-agrees bs (collect_block b into) w)

mutual
  unfolding walk

  walk_same : (v : Json) → walk (replace_tokens (λ t. t)) v ≡ v
  walk_same null = refl
  walk_same (boolean b) = refl
  walk_same (number n) = refl
  walk_same (string s) = ap string (replace_tokens_same s)
  walk_same (array vs) = ap array (items_same vs)
  walk_same (object fs) = ap object (fields_same fs)

  items_same : (vs : Items) → walk_items (replace_tokens (λ t. t)) vs ≡ vs
  items_same end = refl
  items_same (item v vs) = ap₂ item (walk_same v) (items_same vs)

  fields_same : (fs : Fields) → walk_fields (replace_tokens (λ t. t)) fs ≡ fs
  fields_same close = refl
  fields_same (field k v fs) = ap₂ (field k) (walk_same v) (fields_same fs)

pub content_same : (bs : List Block) → replace_content (replace_tokens (λ t. t)) bs ≡ bs
content_same [] = refl
content_same (text_block s rest ∷ bs) =
    ap₂ ◌∷◌ (ap (λ x. text_block x rest) (replace_tokens_same s)) (content_same bs)
content_same (tool_use v rest ∷ bs) =
    ap₂ ◌∷◌ (ap (λ x. tool_use x rest) (walk_same v)) (content_same bs)
content_same (tool_result none rest ∷ bs) = ap (◌∷◌ (tool_result none rest)) (content_same bs)
content_same (tool_result (some v) rest ∷ bs) =
    ap₂ ◌∷◌ (ap (λ x. tool_result (some x) rest) (walk_same v)) (content_same bs)
content_same (other_block rest ∷ bs) = ap (◌∷◌ (other_block rest)) (content_same bs)

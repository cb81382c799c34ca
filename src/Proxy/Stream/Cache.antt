-- ===== src/Proxy/Stream/Cache.antt =====
-- The cache of resolved tokens changes no text: what is cached is what the vault answers.
use vibe_shield.Prelude.{
  ◌≡◌, refl, sym, ap, ap₂, ◌∙◌, inl, inr, List, [], ◌∷◌, ◌++◌, Option, some, Text, same_text,
  same_text_iff, arith, Bool-cases, Option-cases,
}
use vibe_shield.Token.{Piece, unit, token, render}
use vibe_shield.Proxy.Stream.{cached, resolved_text, try_resolve_token, replace_loop}

module _ (vault : Text → Option Text) where
  abbrev pub IsSound : List (Text × Text) → Type 0
  IsSound [] = Unit
  IsSound ((t, s) ∷ m) = (s ≡ resolved_text vault t) × IsSound m

  cached-IsSound :
      (t s : Text) (m : List (Text × Text))
      → IsSound m
      → cached t m ≡ some s
      → s ≡ resolved_text vault t
  unfolding cached
  cached-IsSound t s [] h e = cc
  cached-IsSound t s ((u, v) ∷ m) (k, h) e = elim (Bool-cases (same_text u t)) [
    | inl here ↦
        let same : u ≡ t = (same_text_iff _ _).0 here in
        let value : v ≡ s = ground arith in sym value ∙ k ∙ ap (resolved_text vault) same
    | inr there ↦ cached-IsSound t s m h (ground arith)
  ]

  try_resolve_token_lem :
      (t : Text) (m : List (Text × Text))
      → IsSound m
      → ((try_resolve_token vault t m).0 ≡ resolved_text vault t)
        × IsSound (try_resolve_token vault t m).1
  unfolding try_resolve_token
  try_resolve_token_lem t m h = elim (Option-cases (cached t m)) [
    | inl miss ↦ rw (miss, try_resolve_token) (refl, (refl, h))
    | inr (s, hit) ↦ rw (hit, try_resolve_token) (cached-IsSound t s m h hit, h)
  ]

  -- With a sound cache the loop replaces each token by the vault's answer, and the cache stays sound.
  pub replace_loop_lem :
      (ps : List Piece) (m : List (Text × Text))
      → IsSound m
      → ((replace_loop vault ps m).0 ≡ render (resolved_text vault) ps)
        × IsSound (replace_loop vault ps m).1
  unfolding replace_loop render
  replace_loop_lem [] m h = (refl, h)
  replace_loop_lem (unit c ∷ ps) m h =
      let (same, h') = replace_loop_lem ps m h in (ap (◌∷◌ c) same, h')
  replace_loop_lem (token name whole ∷ ps) m h =
      let (first, h₁) = try_resolve_token_lem whole m h in
      let (same, h₂) = replace_loop_lem ps (try_resolve_token vault whole m).1 h₁ in
      (ap₂ ◌++◌ first same, h₂)

-- ===== src/Proxy/Reidentify/Laws.antt =====
-- The map of resolved tokens, and the early return, against a replacement of each token by itself or
-- by what the vault and the policy allow.
use vibe_shield.Prelude.{
  ◌≡◌, refl, sym, ap, ◌∙◌, inl, inr, true, List, [], ◌∷◌, Option, none, some, Text, same_text,
  same_text_iff, lookup, includes, if◌then◌else◌, arith, Bool-cases, Option-cases,
}
use vibe_shield.Token.{replace_tokens}
use vibe_shield.Policy.Reid.{ReidPolicy, should_resolve}
use vibe_shield.Proxy.Reidentify.{
  Block, or_keep, collect_content, replace_content, resolve_token, resolve_all, replace_resolved,
  reidentify_response,
}
use vibe_shield.Proxy.Reidentify.Collect.{content-agrees, content_same}
use vibe_shield.Proxy.Reidentify.{policy_or_full, parse_entity_type}
use vibe_shield.Policy.Reid.{nothing, effective_mode}
use vibe_shield.Prelude.{fun_ext}

module _ (vault : Text → Option Text) (policy : Option ReidPolicy) (role : Option Text) where
  lookup-resolve_all :
      (t : Text) (ts : List Text)
      → lookup t (resolve_all vault policy role ts)
        ≡ (if includes t ts then resolve_token vault policy role t else none)
  unfolding resolve_all
  lookup-resolve_all t [] = refl
  lookup-resolve_all t (u ∷ ts) = elim (Bool-cases (same_text u t)) [
    | inl here ↦
        let same : u ≡ t = (same_text_iff _ _).0 here in
        elim (Option-cases (resolve_token vault policy role t)) [
          | inl q ↦
              let q' : resolve_token vault policy role u ≡ none = rw same q in
              rw (q', resolve_all) (rw (lookup-resolve_all t ts, here, q) (ground arith))
          | inr (s, q) ↦
              let q' : resolve_token vault policy role u ≡ some s = rw same q in
              rw (q', resolve_all) (rw (here, q))
        ]
    | inr there ↦ elim (Option-cases (resolve_token vault policy role u)) [
      | inl q ↦ rw (q, resolve_all) (rw (there, lookup-resolve_all t ts))
      | inr (s, q) ↦ rw (q, resolve_all) (rw (there, lookup-resolve_all t ts))
    ]
  ]

  -- A token is shown as the vault's answer where the policy allows its type for the role, and as it
  -- is otherwise.
  abbrev pub shown : Text → Text
  shown t = or_keep t (resolve_token vault policy role t)

  shown_lem :
      (ts : List Text) (t : Text)
      → includes t ts ≡ true
      → or_keep t (lookup t (resolve_all vault policy role ts)) ≡ shown t
  shown_lem ts t h = rw (lookup-resolve_all t ts, h) refl

  -- The early return is for content that the replacement leaves alone.
  replace_resolved_lem :
      (resolved : List (Text × Text)) (content : List Block)
      → replace_resolved vault policy role resolved content
        ≡ replace_content (replace_tokens (λ t. or_keep t (lookup t resolved))) content
  replace_resolved_lem [] content = sym (content_same content)
  replace_resolved_lem (e ∷ resolved) content = refl

  pub reidentify_response_lem :
      (content : List Block)
      → reidentify_response vault policy role content
        ≡ replace_content (replace_tokens shown) content
  unfolding reidentify_response
  reidentify_response_lem content =
      let known = collect_content content [] in
      replace_resolved_lem (resolve_all vault policy role known) content
      ∙ content-agrees (λ t. or_keep t (lookup t (resolve_all vault policy role known))) shown known
          (shown_lem known) content [] (λ t h. h)

  -- Under a policy whose mode for the role is `none` the response is the content, unchanged.
  pub reidentify_response_none :
      (content : List Block)
      → effective_mode (policy_or_full policy) role ≡ nothing
      → reidentify_response vault policy role content ≡ content
  unfolding resolve_token should_resolve
  reidentify_response_none content off =
      let kept : (t : Text) → shown t ≡ t = λ t. elim (Option-cases (parse_entity_type t)) [
        | inl q ↦ rw (q, resolve_token) refl
        | inr (e, q) ↦ rw (q, resolve_token) (rw (off, should_resolve) refl)
      ] in
      reidentify_response_lem content
      ∙ ap (λ f. replace_content (replace_tokens f) content) (fun_ext kept)
      ∙ content_same content

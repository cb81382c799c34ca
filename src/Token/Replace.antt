-- ===== src/Token/Replace.antt =====
-- `text.replace(TOKEN_RE, f)` as a whole: what it leaves alone, and that it may be done in parts.
use vibe_shield.Prelude.{
  ℕ, zero, suc, ◌-◌, ◌≤◌, ◌≡◌, refl, sym, ap, ◌∙◌, inl, inr, List, [], ◌∷◌, ◌++◌, Text, arith,
  length, take, take-append_le, drop, take-append-drop, Option-cases, append_assoc, All,
}
use vibe_shield.Token.{
  format_token, token_at, Piece, unit, token, pieces_from, pieces, render, replace_tokens,
  tokens_of,
}
use vibe_shield.Token.Split.{Cuts, token_at-append, token_at-bound}
use vibe_shield.Token.Matching.{IsEntityType, pieces-format_token}

Cuts-tail : (c : ℕ) (a b : Text) → Cuts (c ∷ a) b → Cuts a b
Cuts-tail c a b (inl (_, h)) = inl h
Cuts-tail c a b (inr h) = inr h

-- A search through a text cut at such a place is a search through its parts.
pieces_from-append :
    (k : ℕ) (a b : Text)
    → k ≤ length a
    → Cuts a b
    → pieces_from k (a ++ b) ≡ pieces_from k a ++ pieces_from 0 b
unfolding pieces_from
pieces_from-append zero [] b h w = refl
pieces_from-append (suc k) [] b h w = absurd (omega arith)
pieces_from-append (suc k) (c ∷ a) b h w =
    pieces_from-append k a b (omega arith) (Cuts-tail c a b w)
pieces_from-append zero (c ∷ a) b h w = elim (Option-cases (token_at (c ∷ a))) [
  | inl q ↦
      rw (token_at-append c a b w, q, pieces_from)
        (ap (◌∷◌ (unit c)) (pieces_from-append 0 a b (omega arith) (Cuts-tail c a b w)))
  | inr ((name, n), q) ↦
      let (m, same, bound) = token_at-bound c a name n q in
      let whole : take n (c ∷ (a ++ b)) ≡ take n (c ∷ a) =
        take-append_le n (c ∷ a) b (omega arith) in
      rw (token_at-append c a b w, q, pieces_from)
        (rw whole (
          ap (◌∷◌ (token name (take n (c ∷ a))))
            (pieces_from-append (n - 1) a b (omega arith) (Cuts-tail c a b w))))
]

pub pieces-append : (a b : Text) → Cuts a b → pieces (a ++ b) ≡ pieces a ++ pieces b
pieces-append a b w = pieces_from-append 0 a b (omega arith) w

pub render-append :
    (f : Text → Text) (ps qs : List Piece) → render f (ps ++ qs) ≡ render f ps ++ render f qs
unfolding render
render-append f [] qs = refl
render-append f (unit c ∷ ps) qs = ap (◌∷◌ c) (render-append f ps qs)
render-append f (token name whole ∷ ps) qs =
    ap (◌++◌ (f whole)) (render-append f ps qs) ∙ sym (append_assoc (f whole) _ _)

-- Replacing in a text cut at such a place is replacing in its parts.
pub replace_tokens-append :
    (f : Text → Text) (a b : Text)
    → Cuts a b
    → replace_tokens f (a ++ b) ≡ replace_tokens f a ++ replace_tokens f b
unfolding replace_tokens
replace_tokens-append f a b w =
    ap (render f) (pieces-append a b w) ∙ render-append f (pieces a) (pieces b)

-- A token of the vault is replaced whole, whatever follows.
pub replace_tokens-format_token :
    (f : Text → Text) (e : Text) (n : ℕ) (rest : Text)
    → IsEntityType e
    → replace_tokens f (format_token e n ++ rest) ≡ f (format_token e n) ++ replace_tokens f rest
unfolding replace_tokens render
replace_tokens-format_token f e n rest h = rw (pieces-format_token e n rest h)

-- Two functions that agree on the tokens of a text replace alike.
pub render_cong :
    (f g : Text → Text) (ps : List Piece)
    → All (λ w. f w ≡ g w) (tokens_of ps)
    → render f ps ≡ render g ps
unfolding render tokens_of
render_cong f g [] h = refl
render_cong f g (unit c ∷ ps) h = ap (◌∷◌ c) (render_cong f g ps h)
render_cong f g (token name whole ∷ ps) (h, hs) = rw (h, render_cong f g ps hs)

render_same : (k : ℕ) (s : Text) → k ≤ length s → render (λ w. w) (pieces_from k s) ≡ drop k s
unfolding pieces_from render
render_same zero [] h = refl
render_same (suc k) [] h = refl
render_same (suc k) (c ∷ s) h = render_same k s (omega arith)
render_same zero (c ∷ s) h = elim (Option-cases (token_at (c ∷ s))) [
  | inl q ↦ rw (q, pieces_from) (ap (◌∷◌ c) (render_same 0 s (omega arith)))
  | inr ((name, n), q) ↦
      let (m, same, bound) = token_at-bound c s name n q in
      let pred : n - 1 ≡ m = omega arith in
      rw (q, pieces_from)
        (rw (pred, render_same m s bound, same) (take-append-drop (suc m) (c ∷ s)))
]

-- The search loses nothing: replacing each token by itself gives the text back.
pub replace_tokens_same : (s : Text) → replace_tokens (λ w. w) s ≡ s
unfolding replace_tokens
replace_tokens_same s = render_same 0 s (omega arith)

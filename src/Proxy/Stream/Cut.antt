-- ===== src/Proxy/Stream/Cut.antt =====
-- The buffer is split where no token is cut.
use vibe_shield.Prelude.{
  ℕ, zero, suc, ◌-◌, ◌≤◌, ◌<◌, ◌≡◌, refl, ◌⊎◌, inl, inr, [], ◌∷◌, ◌++◌, Text, drop,
  take-append-drop, ltb, arith, Bool-cases, append-nil,
}
use vibe_shield.Token.Split.{HasClose, IsClosed, Cuts}
use vibe_shield.Proxy.Stream.{last_position, split_buffer}

-- Behind the last `<` of the text stands a `>`, or there is no `<`.
last_position-HasClose : (s : Text) → 0 < last_position b'>' s → HasClose s
unfolding last_position
last_position-HasClose [] h = absurd (omega arith)
last_position-HasClose (x ∷ s) h = ground (arith, last_position-HasClose s)

last_position-IsClosed : (s : Text) → last_position b'<' s ≤ last_position b'>' s → IsClosed s
unfolding last_position
last_position-IsClosed [] h = tt
last_position-IsClosed (x ∷ s) h =
    ((λ e. last_position-HasClose s (ground (arith, e))), last_position-IsClosed s (ground arith))

last_position-drop :
    (c n : ℕ) (s : Text) → last_position c s ≡ suc n → (rest : Text) × (drop n s ≡ c ∷ rest)
unfolding last_position
last_position-drop c n [] e = absurd (omega arith)
last_position-drop c zero (x ∷ s) e = (s, ground arith)
last_position-drop c (suc n) (x ∷ s) e = last_position-drop c n s (ground arith)

-- What the split gives: nothing held and each `<` closed, or a held part that begins with `<`.
abbrev pub IsSplit : Text → Text → Type 0
IsSplit flushable hold = (IsClosed flushable × (hold ≡ [])) ⊎ ((rest : Text) × (hold ≡ b'<' ∷ rest))

-- Nothing is lost, and no token is cut, whatever comes next.
pub split_buffer_lem :
    (s : Text)
    → ((split_buffer s).0 ++ (split_buffer s).1 ≡ s) × IsSplit (split_buffer s).0 (split_buffer s).1
unfolding split_buffer
split_buffer_lem s = elim (Bool-cases (ltb (last_position b'>' s) (last_position b'<' s))) [
  | inl unclosed ↦
      rw (unclosed, split_buffer)
        (
          take-append-drop (last_position b'<' s - 1) s,
          inr (last_position-drop b'<' (last_position b'<' s - 1) s (ground (arith, unclosed))),
        )
  | inr closed ↦
      rw (closed, split_buffer)
        (append-nil s, inl (last_position-IsClosed s (ground (arith, closed)), refl))
]

pub IsSplit-Cuts : (a b e : Text) → IsSplit a b → Cuts a (b ++ e)
IsSplit-Cuts a b e (inl (closed, _)) = inl closed
IsSplit-Cuts a b e (inr (rest, same)) = inr (rw same refl)

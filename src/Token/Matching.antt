-- ===== src/Token/Matching.antt =====
-- The tokens that the vault spells are the ones that TOKEN_RE finds.
use mathlib.Core.Option
use vibe_shield.Prelude.{
  ℕ, suc, ◌+◌, ◌-◌, true, ◌≡◌, refl, ap, ◌∙◌, [], ◌∷◌, ◌++◌, none, some, Text, arith, All, IsDigits,
  length, decimal, decimal-IsDigits, decimal-cons, length-append, append_assoc, take-append_length,
  subst,
}
use vibe_shield.Token.{
  format_token, is_upper, is_name_char, closing, numbered, named, longer, digits_at, first_name,
  token_at, token, pieces_from, pieces,
}

closing-digits : (d rest : Text) → IsDigits d → closing (d ++ b'>' ∷ rest) ≡ some (suc (length d))
unfolding closing
closing-digits [] rest h = refl
closing-digits (c ∷ d) rest (h, hs) = rw (h, closing-digits d rest hs)

numbered-decimal :
    (n : ℕ) (rest : Text)
    → numbered (b'_' ∷ (decimal n ++ b'>' ∷ rest)) ≡ some (suc (suc (length (decimal n))))
unfolding numbered digits_at
numbered-decimal n rest =
    let (d, s, e) = decimal-cons n in
    let digits = subst IsDigits e (decimal-IsDigits n) in
    rw e (rw (digits.0, closing-digits s rest digits.1))

abbrev IsName : Text → Type 0
IsName = All (λ c. is_name_char c ≡ true)

-- The entity types that `[A-Z][A-Z_]*` matches.
abbrev pub IsEntityType : Text → Type 0
IsEntityType [] = ⊥
IsEntityType (c ∷ s) = (is_upper c ≡ true) × IsName s

-- Before the rest of a name and its underscore the group does not end.
numbered-name : (u : ℕ) (e s : Text) → IsName e → numbered (u ∷ (e ++ b'_' ∷ s)) ≡ none
unfolding numbered digits_at
numbered-name u [] s h = ground arith
numbered-name u (c ∷ e) s (h, hs) = ground arith

named-step :
    (c : ℕ) (s : Text)
    → numbered (c ∷ s) ≡ none
    → is_name_char c ≡ true
    → named (c ∷ s) ≡ Option.map (longer c) (named s)
unfolding named
named-step c s e h = rw (e, named) (rw h)

named-format :
    (e : Text) (n : ℕ) (rest : Text)
    → IsName e
    → named (e ++ (b'_' ∷ (decimal n ++ b'>' ∷ rest)))
      ≡ some (e, length e + suc (suc (length (decimal n))))
named-format [] n rest h =
    unfold named in rw (numbered-decimal n rest, named) (ap (λ (k : ℕ). some ([], k)) (omega arith))
named-format (c ∷ e) n rest (h, hs) =
    named-step c _ (numbered-name c e (decimal n ++ b'>' ∷ rest) hs) h
    ∙ ap (Option.map (longer c)) (named-format e n rest hs)
    ∙ ap (λ (k : ℕ). some (c ∷ e, k)) (omega arith)

length-format_token :
    (e : Text) (n : ℕ) → length (format_token e n) ≡ length e + length (decimal n) + 3
unfolding format_token
length-format_token e n = omega (
  arith,
  length-append e (b'_' ∷ (decimal n ++ b'>' ∷ [])),
  length-append (decimal n) (b'>' ∷ []),
)

format_token-append :
    (e : Text) (n : ℕ) (rest : Text)
    → format_token e n ++ rest ≡ b'<' ∷ (e ++ (b'_' ∷ (decimal n ++ b'>' ∷ rest)))
unfolding format_token
format_token-append e n rest = simp append_assoc

-- A token that the vault spells matches whole, and group 1 is its entity type.
pub token_at-format_token :
    (e : Text) (n : ℕ) (rest : Text)
    → IsEntityType e
    → token_at (format_token e n ++ rest) ≡ some (e, length (format_token e n))
token_at-format_token [] n rest h = absurd h
token_at-format_token (c ∷ e) n rest (h, hs) =
    unfold token_at first_name in
    rw (format_token-append (c ∷ e) n rest, length-format_token (c ∷ e) n)
      (rw (h, named-format e n rest hs) (ap (λ (k : ℕ). some (c ∷ e, k)) (omega arith)))

pieces-skip : (s rest : Text) → pieces_from (length s) (s ++ rest) ≡ pieces_from 0 rest
unfolding pieces_from
pieces-skip [] rest = refl
pieces-skip (c ∷ s) rest = pieces-skip s rest

pub pieces-match :
    (name : Text) (c : ℕ) (s rest : Text)
    → token_at (c ∷ (s ++ rest)) ≡ some (name, suc (length s))
    → pieces (c ∷ (s ++ rest)) ≡ token name (c ∷ s) ∷ pieces rest
unfolding pieces_from
pieces-match name c s rest e =
    let same : suc (length s) - 1 ≡ length s = omega arith in
    rw (e, pieces_from)
      (rw (same, take-append_length s rest) (ap (◌∷◌ (token name (c ∷ s))) (pieces-skip s rest)))

-- So a search finds the token, and goes on behind it.
pub pieces-format_token :
    (e : Text) (n : ℕ) (rest : Text)
    → IsEntityType e
    → pieces (format_token e n ++ rest) ≡ token e (format_token e n) ∷ pieces rest
unfolding format_token
pieces-format_token e n rest h =
    pieces-match e b'<' (e ++ (b'_' ∷ (decimal n ++ b'>' ∷ []))) rest
      (token_at-format_token e n rest h)

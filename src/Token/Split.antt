-- ===== src/Token/Split.antt =====
-- Where a text may be cut without cutting a token: before a `<`, or where every `<` is closed.
use vibe_shield.Prelude.{
  ℕ, suc, ◌-◌, ◌≤◌, ◌≡◌, refl, ◌⊎◌, inl, inr, [], ◌∷◌, ◌++◌, none, some, Text, ◌==◌, arith, length,
  Option-cases, Bool-cases, ==_iff,
}
use vibe_shield.Token.{closing, digits_at, numbered, named, first_name, token_at}

-- A `>` stands in the text.
abbrev pub HasClose : Text → Type 0
HasClose [] = ⊥
HasClose (c ∷ s) = (c ≡ b'>') ⊎ HasClose s

-- Every `<` has a `>` behind it.
abbrev pub IsClosed : Text → Type 0
IsClosed [] = Unit
IsClosed (c ∷ s) = (c ≡ b'<' → HasClose s) × IsClosed s

abbrev pub StartsOpen : Text → Type 0
StartsOpen [] = Unit
StartsOpen (c ∷ s) = c ≡ b'<'

-- No match that begins in `a` depends on `b`.
abbrev Walls : Text → Text → Type 0
Walls a b = HasClose a ⊎ StartsOpen b

closing-append : (a b : Text) → Walls a b → closing (a ++ b) ≡ closing a
unfolding closing
closing-append [] [] w = refl
closing-append [] (c ∷ b) w = ground arith
closing-append (c ∷ a) b (inl (inl e)) = ground arith
closing-append (c ∷ a) b (inl (inr h)) = rw (closing-append a b (inl h))
closing-append (c ∷ a) b (inr h) = rw (closing-append a b (inr h))

digits_at-append : (a b : Text) → Walls a b → digits_at (a ++ b) ≡ digits_at a
unfolding digits_at
digits_at-append [] [] w = refl
digits_at-append [] (c ∷ b) w = ground arith
digits_at-append (c ∷ a) b (inl (inl e)) = ground arith
digits_at-append (c ∷ a) b (inl (inr h)) = rw (closing-append a b (inl h))
digits_at-append (c ∷ a) b (inr h) = rw (closing-append a b (inr h))

numbered-append : (a b : Text) → Walls a b → numbered (a ++ b) ≡ numbered a
unfolding numbered
numbered-append [] [] w = refl
numbered-append [] (c ∷ b) w = ground arith
numbered-append (c ∷ a) b (inl (inl e)) = ground arith
numbered-append (c ∷ a) b (inl (inr h)) = rw (digits_at-append a b (inl h))
numbered-append (c ∷ a) b (inr h) = rw (digits_at-append a b (inr h))

numbered-open : (s : Text) → StartsOpen s → numbered s ≡ none
unfolding numbered
numbered-open [] h = refl
numbered-open (c ∷ s) h = ground arith

named-append : (a b : Text) → Walls a b → named (a ++ b) ≡ named a
unfolding named
named-append [] [] w = refl
named-append [] (c ∷ b) (inl h) = absurd h
named-append [] (c ∷ b) (inr h) = rw (numbered-open (c ∷ b) h, named) (ground arith)
named-append (c ∷ a) b (inl (inl e)) =
    rw (numbered-append (c ∷ a) b (inl (inl e)), named) (ground arith)
named-append (c ∷ a) b (inl (inr h)) =
    rw (numbered-append (c ∷ a) b (inl (inr h)), named) (rw (named-append a b (inl h)))
named-append (c ∷ a) b (inr h) =
    rw (numbered-append (c ∷ a) b (inr h), named) (rw (named-append a b (inr h)))

first_name-append : (a b : Text) → Walls a b → first_name (a ++ b) ≡ first_name a
unfolding first_name
first_name-append [] [] w = refl
first_name-append [] (c ∷ b) w = ground arith
first_name-append (c ∷ a) b (inl (inl e)) = ground arith
first_name-append (c ∷ a) b (inl (inr h)) = rw (named-append a b (inl h))
first_name-append (c ∷ a) b (inr h) = rw (named-append a b (inr h))

abbrev pub Cuts : Text → Text → Type 0
Cuts a b = IsClosed a ⊎ StartsOpen b

pub token_at-append :
    (c : ℕ) (a b : Text) → Cuts (c ∷ a) b → token_at (c ∷ (a ++ b)) ≡ token_at (c ∷ a)
unfolding token_at
token_at-append c a b (inr h) = rw (first_name-append a b (inr h))
token_at-append c a b (inl (close, _)) = elim (Bool-cases (c == b'<')) [
  | inl q ↦ rw (first_name-append a b (inl (close ((==_iff _ _).0 q))))
  | inr q ↦ rw q
]

closing-bound : (s : Text) (n : ℕ) → closing s ≡ some n → n ≤ length s
unfolding closing
closing-bound [] n e = cc
closing-bound (c ∷ s) n e = elim (Option-cases (closing s)) [
  | inl q ↦ ground arith
  | inr (m, q) ↦ ground (arith, closing-bound s m q)
]

numbered-bound : (s : Text) (n : ℕ) → numbered s ≡ some n → (1 ≤ n) × (n ≤ length s)
unfolding numbered digits_at
numbered-bound [] n e = cc
numbered-bound (u ∷ []) n e = ground arith
numbered-bound (u ∷ d ∷ s) n e = elim (Option-cases (closing s)) [
  | inl q ↦ ground arith
  | inr (m, q) ↦ ground (arith, closing-bound s m q)
]

named-bound : (s : Text) (name : Text) (n : ℕ) → named s ≡ some (name, n) → (1 ≤ n) × (n ≤ length s)
unfolding named
named-bound [] name n e = cc
named-bound (c ∷ s) name n e = elim (Option-cases (named s)) [
  | inl q ↦ elim (Option-cases (numbered (c ∷ s))) [
    | inl r ↦ ground arith
    | inr (m, r) ↦ ground (arith, numbered-bound (c ∷ s) m r)
  ]
  | inr ((x, k), q) ↦ elim (Option-cases (numbered (c ∷ s))) [
    | inl r ↦ ground (arith, named-bound s x k q)
    | inr (m, r) ↦ ground (arith, numbered-bound (c ∷ s) m r)
  ]
]

-- A match is not empty, and ends within the text.
pub token_at-bound :
    (c : ℕ) (s name : Text) (n : ℕ)
    → token_at (c ∷ s) ≡ some (name, n)
    → (m : ℕ) × (n ≡ suc m) × (m ≤ length s)
unfolding token_at first_name
token_at-bound c [] name n e = absurd (ground arith)
token_at-bound c (d ∷ s) name n e = elim (Option-cases (named s)) [
  | inl q ↦ absurd (ground (arith, q))
  | inr ((x, k), q) ↦
      (n - 1, ground (arith, named-bound s x k q), ground (arith, named-bound s x k q))
]

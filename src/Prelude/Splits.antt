-- ===== src/Prelude/Splits.antt =====
-- `split`, `join`, `indexOf`, `trim` and the whitespace of JavaScript, on code units.
use Prim.Native.Nat.{ℕ}
use mathlib.Core.Path.{◌≡◌, refl}
use mathlib.Core.Logic.{inl, inr}
use mathlib.Core.Bool.{Bool, true, false, ◌&&◌, ◌||◌, not}
use mathlib.Core.List.{List, [], ◌∷◌, ◌++◌}
use mathlib.Core.Option.{Option, none, some}
use native.Mathlib.Omega.{arith}
use vibe_shield.Prelude.Tests.{leb, ◌==◌, if◌then◌else◌, Bool-cases}
use vibe_shield.Prelude.Lists.{All, all}
use vibe_shield.Prelude.Texts.{Text}

-- `\s`, and what `trim` removes.
abbrev pub is_space : ℕ → Bool
is_space c =
    (leb 9 c && leb c 13)
    || (c == 32)
    || (c == 160)
    || (c == 5760)
    || (leb 8192 c && leb c 8202)
    || (c == 8232)
    || (c == 8233)
    || (c == 8239)
    || (c == 8287)
    || (c == 12288)
    || (c == 65279)

abbrev pub trim_start : Text → Text
trim_start [] = []
trim_start (c ∷ s) = if is_space c then trim_start s else c ∷ s

-- A unit in front of a trimmed rest: space alone is dropped.
abbrev pub unless_space : ℕ → Text → Text
unless_space c [] = if is_space c then [] else c ∷ []
unless_space c (d ∷ s) = c ∷ d ∷ s

abbrev pub trim_end : Text → Text
trim_end [] = []
trim_end (c ∷ s) = unless_space c (trim_end s)

abbrev pub trim : Text → Text
trim s = trim_end (trim_start s)

abbrev pub onto_first : ℕ → List Text → List Text
onto_first c [] = (c ∷ []) ∷ []
onto_first c (t ∷ ts) = (c ∷ t) ∷ ts

-- `s.split(c)` at one unit.
abbrev pub split_on : ℕ → Text → List Text
split_on c [] = [] ∷ []
split_on c (d ∷ s) = if d == c then [] ∷ split_on c s else onto_first d (split_on c s)

-- What stands before the first `c`, and behind it; `none` where `indexOf` gives -1.
abbrev pub cut_at : ℕ → Text → Option (Text × Text)
cut_at c [] = none
cut_at c (d ∷ s) =
    if d == c
    then some ([], s)
    else elim (cut_at c s) [ none ↦ none | some (a, b) ↦ some (d ∷ a, b) ]

-- No unit of the text is `c`.
abbrev pub IsFree : ℕ → Text → Type 0
IsFree c = All (λ d. (d == c) ≡ false)

abbrev pub HasNoSpace : Text → Type 0
HasNoSpace = All (λ d. is_space d ≡ false)

pub split_on-IsFree : (c : ℕ) (s : Text) → IsFree c s → split_on c s ≡ s ∷ []
split_on-IsFree c [] h = refl
split_on-IsFree c (d ∷ s) (h, hs) = rw (h, split_on-IsFree c s hs) refl

pub split_on-append : (c : ℕ) (s t : Text) → IsFree c s → split_on c (s ++ c ∷ t) ≡ s ∷ split_on c t
split_on-append c [] t h = elim (Bool-cases (c == c)) [
  | inl e ↦ rw e refl
  | inr e ↦ absurd (ground arith)
]
split_on-append c (d ∷ s) t (h, hs) = rw (h, split_on-append c s t hs) refl

pub cut_at-append : (c : ℕ) (s t : Text) → IsFree c s → cut_at c (s ++ c ∷ t) ≡ some (s, t)
cut_at-append c [] t h = elim (Bool-cases (c == c)) [
  | inl e ↦ rw e refl
  | inr e ↦ absurd (ground arith)
]
cut_at-append c (d ∷ s) t (h, hs) = rw (h, cut_at-append c s t hs) refl

trim_end-HasNoSpace : (s : Text) → HasNoSpace s → trim_end s ≡ s
trim_end-HasNoSpace [] h = refl
trim_end-HasNoSpace (c ∷ []) (h, hs) = rw h refl
trim_end-HasNoSpace (c ∷ d ∷ s) (h, hs) = rw (trim_end-HasNoSpace (d ∷ s) hs) refl

-- A text with no space is its own trim, also behind a space.
pub trim-HasNoSpace : (s : Text) → HasNoSpace s → trim s ≡ s
trim-HasNoSpace [] h = refl
trim-HasNoSpace (c ∷ s) (h, hs) = rw h (trim_end-HasNoSpace (c ∷ s) (h, hs))

pub trim-space : (s : Text) → HasNoSpace s → trim (32 ∷ s) ≡ s
trim-space s h = trim-HasNoSpace s h

-- A test on each unit of a text that is known decides it.
pub all-All : (p : ℕ → Bool) (s : Text) → all (λ d. not (p d)) s ≡ true → All (λ d. p d ≡ false) s
all-All p [] h = tt
all-All p (c ∷ s) h = elim (Bool-cases (p c)) [
  | inl hit ↦ absurd (ground arith)
  | inr miss ↦ (miss, all-All p s (ground arith))
]

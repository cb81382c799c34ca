-- ===== src/Prelude/Texts.antt =====
-- Text as its list of UTF-16 code units, byte strings alike, and decimal numerals.
use Prim.Native.Nat.{ℕ, zero, suc, ◌+◌, ◌-◌, ◌*◌, ◌/◌, ◌%◌, ◌<◌}
use Prim.Native.Char.{code}
use Prim.Native.String.{String}
use mathlib.Core.Path.{◌≡◌, refl, sym, ap, ◌∙◌}
use mathlib.Core.Logic.{◌↔◌, inl, inr}
use mathlib.Core.Bool.{Bool, true, false, ◌&&◌}
use mathlib.Core.List.{List, [], ◌∷◌, ◌++◌}
use native.Mathlib.Omega.{arith}
use vibe_shield.Prelude.Tests.{ltb, leb, ◌==◌, if◌then◌else◌, Bool-cases}
use vibe_shield.Prelude.Lists.{All, All-append}

abbrev pub Text : Type 0
Text = List ℕ

-- The code units of a literal; the literals of the source are ASCII.
abbrev pub codes : String → Text
codes String.[] = []
codes (String.◌∷◌ c s) = code c ∷ codes s

-- `===` of two strings, and the equality of two buffers.
unfoldable pub same_text : Text → Text → Bool
same_text [] [] = true
same_text (a ∷ s) (b ∷ t) = (a == b) && same_text s t
same_text _ _ = false

pub same_text_iff : (s t : Text) → (same_text s t ≡ true) ↔ (s ≡ t)
unfolding same_text
same_text_iff [] [] = ground arith
same_text_iff [] (b ∷ t) = ground arith
same_text_iff (a ∷ s) [] = ground arith
same_text_iff (a ∷ s) (b ∷ t) = ground (arith, same_text_iff s t)

pub same_text_refl : (s : Text) → same_text s s ≡ true
same_text_refl s = (same_text_iff s s).1 refl

abbrev pub is_digit : ℕ → Bool
is_digit c = leb b'0' c && leb c b'9'

-- `n.toString()` of a natural number; the fuel is one more than the number.
decimal_on : ℕ → ℕ → Text
decimal_on zero n = []
decimal_on (suc f) n =
    let front = decimal_on f (n / 10) in
    if ltb n 10 then (b'0' + n) ∷ [] else front ++ (b'0' + n % 10) ∷ []

unfoldable pub decimal : ℕ → Text
unfolding decimal_on
decimal n = decimal_on (suc n) n

value_from : ℕ → Text → ℕ
value_from acc [] = acc
value_from acc (c ∷ s) = value_from (acc * 10 + (c - b'0')) s

value_from-append :
    (acc : ℕ) (s t : Text) → value_from acc (s ++ t) ≡ value_from (value_from acc s) t
unfolding value_from
value_from-append acc [] t = refl
value_from-append acc (c ∷ s) t = value_from-append (acc * 10 + (c - b'0')) s t

value_from-decimal_on : (f n : ℕ) → n < f → value_from 0 (decimal_on f n) ≡ n
unfolding value_from decimal_on
value_from-decimal_on zero n h = absurd (omega arith)
value_from-decimal_on (suc f) n h = elim (Bool-cases (ltb n 10)) [
  | inl small ↦ rw small (omega arith)
  | inr big ↦ rw big (
      rw (value_from-append 0 (decimal_on f (n / 10)) ((b'0' + n % 10) ∷ []))
        (rw (value_from-decimal_on f (n / 10) (ground arith)) (omega arith)))
]

-- Two numbers with one numeral are one number.
pub decimal_injective : (m n : ℕ) → decimal m ≡ decimal n → m ≡ n
unfolding decimal
decimal_injective m n e =
    sym (value_from-decimal_on (suc m) m (omega arith))
    ∙ ap (value_from 0) e
    ∙ value_from-decimal_on (suc n) n (omega arith)

abbrev pub IsDigits : Text → Type 0
IsDigits = All (λ c. is_digit c ≡ true)

decimal_on-IsDigits : (f n : ℕ) → IsDigits (decimal_on f n)
unfolding decimal_on
decimal_on-IsDigits zero n = tt
decimal_on-IsDigits (suc f) n = elim (Bool-cases (ltb n 10)) [
  | inl small ↦ rw small (ground arith, tt)
  | inr big ↦ rw big (
      All-append (λ c. is_digit c ≡ true) (decimal_on f (n / 10)) ((b'0' + n % 10) ∷ [])
        (decimal_on-IsDigits f (n / 10)) (ground arith, tt))
]

-- A numeral has digits only, and at least one.
pub decimal-IsDigits : (n : ℕ) → IsDigits (decimal n)
unfolding decimal
decimal-IsDigits n = decimal_on-IsDigits (suc n) n

append-cons : (s : Text) (x : ℕ) → (d : ℕ) × (t : Text) × (s ++ x ∷ [] ≡ d ∷ t)
append-cons [] x = (x, [], refl)
append-cons (d ∷ s) x = (d, s ++ x ∷ [], refl)

pub decimal-cons : (n : ℕ) → (d : ℕ) × (s : Text) × (decimal n ≡ d ∷ s)
unfolding decimal decimal_on
decimal-cons n = elim (Bool-cases (ltb n 10)) [
  | inl small ↦ (b'0' + n, [], rw small)
  | inr big ↦ rw big (append-cons (decimal_on n (n / 10)) (b'0' + n % 10))
]

pub same_text_comm : (s t : Text) → same_text s t ≡ same_text t s
unfolding same_text
same_text_comm [] [] = refl
same_text_comm [] (b ∷ t) = refl
same_text_comm (a ∷ s) [] = refl
same_text_comm (a ∷ s) (b ∷ t) = ground (arith, same_text_comm s t)

-- The order of two strings, by code units.
abbrev pub before : Text → Text → Bool
before [] [] = false
before [] (b ∷ t) = true
before (a ∷ s) [] = false
before (a ∷ s) (b ∷ t) = let rest = before s t in if a == b then rest else ltb a b

pub before_asym : (s t : Text) → before s t ≡ true → before t s ≡ false
before_asym [] [] h = refl
before_asym [] (b ∷ t) h = refl
before_asym (a ∷ s) [] h = cc
before_asym (a ∷ s) (b ∷ t) h = ground (arith, before_asym s t)

pub before_trans : (s t u : Text) → before s t ≡ true → before t u ≡ true → before s u ≡ true
before_trans [] [] u h k = cc
before_trans [] (b ∷ t) [] h k = cc
before_trans [] (b ∷ t) (c ∷ u) h k = refl
before_trans (a ∷ s) [] u h k = absurd cc
before_trans (a ∷ s) (b ∷ t) [] h k = cc
before_trans (a ∷ s) (b ∷ t) (c ∷ u) h k = ground (arith, before_trans s t u)

pub before_total : (s t : Text) → same_text s t ≡ false → before s t ≡ false → before t s ≡ true
unfolding same_text
before_total [] [] d h = cc
before_total [] (b ∷ t) d h = cc
before_total (a ∷ s) [] d h = refl
before_total (a ∷ s) (b ∷ t) d h = ground (arith, before_total s t)

-- ===== src/Prelude/Lists.antt =====
-- Lists measured by native numbers, and predicates over lists.
use Prim.Native.Nat.{ℕ, zero, suc, ◌+◌, ◌≤◌, min}
use mathlib.Core.Path.{◌≡◌, refl, ap}
use mathlib.Core.Logic.{inl, inr}
use mathlib.Core.Bool.{Bool, true, false}
use mathlib.Core.List.{List, [], ◌∷◌, ◌++◌}
use mathlib.Core.Option.{Option, none, some}
use mathlib.Core.Option
use native.Mathlib.Omega.{arith}
use vibe_shield.Prelude.Tests.{if◌then◌else◌, Bool-cases}

module _ {ℓ} {A : Type ℓ} where
  abbrev pub length : List A → ℕ
  length [] = 0
  length (x ∷ xs) = suc (length xs)

  abbrev pub take : ℕ → List A → List A
  take zero xs = []
  take (suc n) [] = []
  take (suc n) (x ∷ xs) = x ∷ take n xs

  abbrev pub drop : ℕ → List A → List A
  drop zero xs = xs
  drop (suc n) [] = []
  drop (suc n) (x ∷ xs) = drop n xs

  -- The rows that a WHERE clause selects.
  abbrev pub select : (A → Bool) → List A → List A
  select p [] = []
  select p (x ∷ xs) = if p x then x ∷ select p xs else select p xs

  -- The first row that a WHERE clause selects, `rows[0]` in the source.
  abbrev pub find? : (A → Bool) → List A → Option A
  find? p [] = none
  find? p (x ∷ xs) = if p x then some x else find? p xs

  -- UPDATE … SET … WHERE.
  abbrev pub update : (A → Bool) → (A → A) → List A → List A
  update p f [] = []
  update p f (x ∷ xs) = (if p x then f x else x) ∷ update p f xs

  abbrev pub any : (A → Bool) → List A → Bool
  any p [] = false
  any p (x ∷ xs) = if p x then true else any p xs

  abbrev pub all : (A → Bool) → List A → Bool
  all p [] = true
  all p (x ∷ xs) = if p x then all p xs else false

  pub length-append : (xs ys : List A) → length (xs ++ ys) ≡ length xs + length ys
  length-append [] ys = omega arith
  length-append (x ∷ xs) ys = omega (arith, length-append xs ys)

  pub take-append-drop : (n : ℕ) (xs : List A) → take n xs ++ drop n xs ≡ xs
  take-append-drop zero xs = refl
  take-append-drop (suc n) [] = refl
  take-append-drop (suc n) (x ∷ xs) = rw (take-append-drop n xs)

  pub length-take : (n : ℕ) (xs : List A) → length (take n xs) ≡ min n (length xs)
  length-take zero xs = omega arith
  length-take (suc n) [] = omega arith
  length-take (suc n) (x ∷ xs) = omega (arith, length-take n xs)

  pub take-append_le : (n : ℕ) (xs ys : List A) → n ≤ length xs → take n (xs ++ ys) ≡ take n xs
  take-append_le zero xs ys h = refl
  take-append_le (suc n) [] ys h = absurd (omega arith)
  take-append_le (suc n) (x ∷ xs) ys h = ap (◌∷◌ x) (take-append_le n xs ys (omega arith))

  pub take-append_length : (xs ys : List A) → take (length xs) (xs ++ ys) ≡ xs
  take-append_length [] ys = refl
  take-append_length (x ∷ xs) ys = ap (◌∷◌ x) (take-append_length xs ys)

  pub drop-append_length : (xs ys : List A) → drop (length xs) (xs ++ ys) ≡ ys
  drop-append_length [] ys = refl
  drop-append_length (x ∷ xs) ys = drop-append_length xs ys

  pub length-select_le : (p : A → Bool) (xs : List A) → length (select p xs) ≤ length xs
  length-select_le p [] = omega arith
  length-select_le p (x ∷ xs) = ground (arith, length-select_le p xs)

  pub select-append :
      (p : A → Bool) (xs ys : List A) → select p (xs ++ ys) ≡ select p xs ++ select p ys
  select-append p [] ys = refl
  select-append p (x ∷ xs) ys = ground (arith, select-append p xs ys)

  pub length-update : (p : A → Bool) (f : A → A) (xs : List A) → length (update p f xs) ≡ length xs
  length-update p f [] = refl
  length-update p f (x ∷ xs) = ap suc (length-update p f xs)

-- A predicate of every element.
abbrev pub All {ℓ κ} : {A : Type ℓ} → (A → Type κ) → List A → Type κ
All P [] = Unit
All P (x ∷ xs) = P x × All P xs

module _ {ℓ κ} {A : Type ℓ} (P : A → Type κ) where
  pub All-append : (xs ys : List A) → All P xs → All P ys → All P (xs ++ ys)
  All-append [] ys hx hy = hy
  All-append (x ∷ xs) ys (h, hx) hy = (h, All-append xs ys hx hy)

  pub All-select : (p : A → Bool) (xs : List A) → All P xs → All P (select p xs)
  All-select p [] h = h
  All-select p (x ∷ xs) (h, hs) = ground (arith, All-select p xs hs)

  pub All-update :
      (p : A → Bool) (f : A → A) (xs : List A)
      → ((x : A) → P x → P (f x))
      → All P xs
      → All P (update p f xs)
  All-update p f [] keep h = h
  All-update p f (x ∷ xs) keep (h, hs) = (ground (arith, keep x h), All-update p f xs keep hs)

  -- What is found was there, and passes the test.
  pub find?-All :
      (p : A → Bool) (xs : List A) {x : A} → All P xs → find? p xs ≡ some x → P x × (p x ≡ true)
  find?-All p [] h e = cc
  find?-All p (y ∷ ys) {x} (h, hs) e = elim (Bool-cases (p y)) [
    | inl q ↦ let same : y ≡ x = ground arith in rw (← same) (h, q)
    | inr q ↦ find?-All p ys hs (ground arith)
  ]

module _ {ℓ} {A : Type ℓ} (p : A → Bool) where
  pub find?-eq-none : (xs : List A) → All (λ x. p x ≡ false) xs → find? p xs ≡ none
  find?-eq-none [] h = refl
  find?-eq-none (x ∷ xs) (h, hs) = rw h (find?-eq-none xs hs)

  pub find?-none-any : (xs : List A) → find? p xs ≡ none → any p xs ≡ false
  find?-none-any [] h = refl
  find?-none-any (x ∷ xs) h = ground (arith, find?-none-any xs)

  -- A row that is found is found among the rows that another test keeps, if it passes that.
  pub find?-select :
      (q : A → Bool) (xs : List A) {x : A}
      → find? p xs ≡ some x
      → q x ≡ true
      → find? p (select q xs) ≡ some x
  find?-select q [] e h = e
  find?-select q (y ∷ ys) {x} e h = elim (Bool-cases (p y)) [
    | inl r ↦
        let same : y ≡ x = ground arith in
        let kept : q y ≡ true = rw same h in rw kept (rw r (ap some same))
    | inr r ↦ let later = find?-select q ys {x = x} (ground arith) h in ground (arith, later)
  ]

  pub find?-passes : (xs : List A) {x : A} → find? p xs ≡ some x → p x ≡ true
  find?-passes [] e = cc
  find?-passes (y ∷ ys) {x} e = elim (Bool-cases (p y)) [
    | inl here ↦ let same : y ≡ x = ground arith in rw (← same) here
    | inr later ↦ find?-passes ys {x = x} (ground arith)
  ]

  pub find?-some-any : (xs : List A) {x : A} → find? p xs ≡ some x → any p xs ≡ true
  find?-some-any [] e = cc
  find?-some-any (y ∷ ys) {x} e = elim (Bool-cases (p y)) [
    | inl here ↦ rw here
    | inr later ↦ rw later (find?-some-any ys {x = x} (ground arith))
  ]

  -- What is not found is not found among fewer rows either.
  pub find?-none-select :
      (q : A → Bool) (xs : List A) → find? p xs ≡ none → find? p (select q xs) ≡ none
  find?-none-select q [] e = refl
  find?-none-select q (y ∷ ys) e = elim (Bool-cases (q y)) [
    | inl kept ↦ rw kept (ground (arith, find?-none-select q ys))
    | inr left ↦ rw left (find?-none-select q ys (ground arith))
  ]

module _ {ℓ} {A : Type ℓ} (p q : A → Bool) (f : A → A) where
  -- Where the update keeps the key, the row that is found is the old one, updated.
  pub find?-update :
      (xs : List A)
      → ((x : A) → p (f x) ≡ p x)
      → find? p (update q f xs) ≡ Option.map (λ x. if q x then f x else x) (find? p xs)
  find?-update [] keep = refl
  find?-update (x ∷ xs) keep = elim (Bool-cases (q x)) [
    | inl hit ↦ elim (Bool-cases (p x)) [
      | inl here ↦ rw (hit, keep x, here) (rw hit refl)
      | inr there ↦ rw (hit, keep x, there) (find?-update xs keep)
    ]
    | inr miss ↦ elim (Bool-cases (p x)) [
      | inl here ↦ rw (miss, here) (rw miss refl)
      | inr there ↦ rw (miss, there) (find?-update xs keep)
    ]
  ]

module _ {ℓ} {A : Type ℓ} (p q : A → Bool) where
  -- No row passes a stronger test where none passes the weaker one.
  pub find?-any-false :
      (xs : List A) → ((x : A) → p x ≡ true → q x ≡ true) → any q xs ≡ false → find? p xs ≡ none
  find?-any-false [] h e = refl
  find?-any-false (x ∷ xs) h e = elim (Bool-cases (p x)) [
    | inl hit ↦ let weak = h x hit in absurd (ground arith)
    | inr miss ↦ rw miss (find?-any-false xs h (ground arith))
  ]

  -- An update that creates no row of the kind leaves none.
  pub any-update :
      (f : A → A) (xs : List A)
      → ((x : A) → p (if q x then f x else x) ≡ true → p x ≡ true)
      → any p xs ≡ false
      → any p (update q f xs) ≡ false
  any-update f [] h e = refl
  any-update f (x ∷ xs) h e = elim (Bool-cases (p (if q x then f x else x))) [
    | inl hit ↦ let before = h x hit in absurd (ground arith)
    | inr miss ↦ rw miss (any-update f xs h (ground arith))
  ]

  -- An update that keeps the key keeps the presence.
  pub any-update_same :
      (f : A → A) (xs : List A) → ((x : A) → p (f x) ≡ p x) → any p (update q f xs) ≡ any p xs
  any-update_same f [] h = refl
  any-update_same f (x ∷ xs) h = elim (Bool-cases (q x)) [
    | inl hit ↦ rw (hit, h x, any-update_same f xs h) refl
    | inr miss ↦ rw (miss, any-update_same f xs h) refl
  ]

  pub any-select : (xs : List A) → any p xs ≡ false → any p (select q xs) ≡ false
  any-select [] e = refl
  any-select (x ∷ xs) e = ground (arith, any-select xs)

  -- What is found fails a test that no row passes.
  pub find?-fails : (xs : List A) {x : A} → find? p xs ≡ some x → any q xs ≡ false → q x ≡ false
  find?-fails [] e h = cc
  find?-fails (y ∷ ys) {x} e h = elim (Bool-cases (p y)) [
    | inl here ↦ let same : y ≡ x = ground arith in rw (← same) (ground arith)
    | inr later ↦ find?-fails ys {x = x} (ground arith) (ground arith)
  ]

  pub update_none : (f : A → A) (xs : List A) → any q xs ≡ false → update q f xs ≡ xs
  update_none f [] h = refl
  update_none f (x ∷ xs) h = elim (Bool-cases (q x)) [
    | inl hit ↦ absurd (ground arith)
    | inr miss ↦ rw miss (ap (◌∷◌ x) (update_none f xs (ground arith)))
  ]

-- What an update makes of a predicate, on the rows that it changes and on the others.
pub All-update_to {ℓ κ μ} :
    {A : Type ℓ} (P : A → Type κ) (Q : A → Type μ) (p : A → Bool) (f : A → A) (xs : List A)
    → ((x : A) → P x → p x ≡ true → Q (f x))
    → ((x : A) → P x → p x ≡ false → Q x)
    → All P xs
    → All Q (update p f xs)
All-update_to P Q p f [] hit miss h = tt
All-update_to P Q p f (x ∷ xs) hit miss (h, hs) = (
  elim (Bool-cases (p x)) [ inl q ↦ rw q (hit x h q) | inr q ↦ rw q (miss x h q) ],
  All-update_to P Q p f xs hit miss hs,
)

-- A predicate that follows from another holds of the rows that the other holds of.
pub All-map {ℓ κ μ} :
    {A : Type ℓ} (P : A → Type κ) (Q : A → Type μ) (xs : List A)
    → ((x : A) → P x → Q x)
    → All P xs
    → All Q xs
All-map P Q [] f h = tt
All-map P Q (x ∷ xs) f (h, hs) = (f x h, All-map P Q xs f hs)

pub select-any-false {ℓ} :
    {A : Type ℓ} (p : A → Bool) (xs : List A) → any p xs ≡ false → select p xs ≡ []
select-any-false p [] h = refl
select-any-false p (x ∷ xs) h = elim (Bool-cases (p x)) [
  | inl hit ↦ absurd (ground arith)
  | inr miss ↦ rw miss (select-any-false p xs (ground arith))
]

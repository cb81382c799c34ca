-- ===== src/Prelude/Maps.antt =====
-- Maps with text keys: the list of their entries. An object's keys are its own keys.
use mathlib.Core.Path.{◌≡◌, refl, ap}
use mathlib.Core.Logic.{inl, inr}
use mathlib.Core.Bool.{Bool, true, false}
use mathlib.Core.List.{List, [], ◌∷◌, ◌++◌}
use native.Mathlib.Omega.{arith}
use mathlib.Core.Option.{Option, none, some}
use vibe_shield.Prelude.Tests.{if◌then◌else◌, Bool-cases}
use vibe_shield.Prelude.Lists.{any, update, All, All-append, All-update_to}
use vibe_shield.Prelude.Texts.{Text, same_text, same_text_iff, same_text_refl}

module _ {ℓ} {A : Type ℓ} where
  -- `map[key]`, `map.get(key)`
  abbrev pub lookup : Text → List (Text × A) → Option A
  lookup k [] = none
  lookup k ((j, a) ∷ m) = if same_text j k then some a else lookup k m

-- `set.has(key)`, `array.includes(key)`
abbrev pub includes : Text → List Text → Bool
includes k = any (λ j. same_text j k)

module _ {ℓ} {A : Type ℓ} where
  abbrev pub has_key : Text → Text × A → Bool
  has_key k (j, a) = same_text j k

  -- `map.set(key, value)`: in place where the key is there, else after the other entries.
  abbrev pub set : Text → A → List (Text × A) → List (Text × A)
  set k a m = if any (has_key k) m then update (has_key k) (λ e. (e.0, a)) m else m ++ (k, a) ∷ []

  -- `Array.from(map.values())`
  abbrev pub values : List (Text × A) → List A
  values [] = []
  values ((k, a) ∷ m) = a ∷ values m

  lookup-append_last :
      (k : Text) (a : A) (m : List (Text × A))
      → any (has_key k) m ≡ false
      → lookup k (m ++ (k, a) ∷ []) ≡ some a
  lookup-append_last k a [] h = rw (same_text_refl k)
  lookup-append_last k a ((j, b) ∷ m) h = elim (Bool-cases (same_text j k)) [
    | inl hit ↦ absurd (ground arith)
    | inr miss ↦ rw miss (lookup-append_last k a m (ground arith))
  ]

  lookup-update_same :
      (k : Text) (a : A) (m : List (Text × A))
      → any (has_key k) m ≡ true
      → lookup k (update (has_key k) (λ e. (e.0, a)) m) ≡ some a
  lookup-update_same k a [] h = cc
  lookup-update_same k a ((j, b) ∷ m) h = elim (Bool-cases (same_text j k)) [
    | inl hit ↦ rw hit (rw hit refl)
    | inr miss ↦ rw miss (rw miss (lookup-update_same k a m (ground arith)))
  ]

  -- What was set is found.
  pub lookup-set : (k : Text) (a : A) (m : List (Text × A)) → lookup k (set k a m) ≡ some a
  lookup-set k a m = elim (Bool-cases (any (has_key k) m)) [
    | inl there ↦ rw there (lookup-update_same k a m there)
    | inr new ↦ rw new (lookup-append_last k a m new)
  ]

  lookup-append_other :
      (k j : Text) (a : A) (m : List (Text × A))
      → same_text j k ≡ false
      → lookup k (m ++ (j, a) ∷ []) ≡ lookup k m
  lookup-append_other k j a [] h = rw h refl
  lookup-append_other k j a ((i, b) ∷ m) h = elim (Bool-cases (same_text i k)) [
    | inl hit ↦ rw hit refl
    | inr miss ↦ rw miss (lookup-append_other k j a m h)
  ]

  lookup-update_other :
      (k j : Text) (a : A) (m : List (Text × A))
      → same_text j k ≡ false
      → lookup k (update (has_key j) (λ e. (e.0, a)) m) ≡ lookup k m
  lookup-update_other k j a [] h = refl
  lookup-update_other k j a ((i, b) ∷ m) h = elim (Bool-cases (same_text i j)) [
    | inl hit ↦
        let same : i ≡ j = (same_text_iff i j).0 hit in
        let other : same_text i k ≡ false = rw same h in
        rw hit (rw other (lookup-update_other k j a m h))
    | inr miss ↦
        rw miss (
          ap (λ (o : Option A). if same_text i k then some b else o)
            (lookup-update_other k j a m h))
  ]

  -- Other keys are as before.
  pub lookup-set_other :
      (k j : Text) (a : A) (m : List (Text × A))
      → same_text j k ≡ false
      → lookup k (set j a m) ≡ lookup k m
  lookup-set_other k j a m h = elim (Bool-cases (any (has_key j) m)) [
    | inl there ↦ rw there (lookup-update_other k j a m h)
    | inr new ↦ rw new (lookup-append_other k j a m h)
  ]

-- A predicate of the entries is kept where the new entry has it.
pub All-set {ℓ κ} :
    {A : Type ℓ} (P : Text × A → Type κ) (k : Text) (a : A) (m : List (Text × A))
    → ((j : Text) → j ≡ k → P (j, a))
    → All P m
    → All P (set k a m)
All-set P k a m new h = elim (Bool-cases (any (has_key k) m)) [
  | inl there ↦ rw there (
      All-update_to P P (has_key k) (λ e. (e.0, a)) m (λ e p q. new e.0 ((same_text_iff e.0 k).0 q))
        (λ e p q. p) h)
  | inr miss ↦ rw miss (All-append P m ((k, a) ∷ []) h (new k refl, tt))
]

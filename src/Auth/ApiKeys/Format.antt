-- ===== src/Auth/ApiKeys/Format.antt =====
-- The keys that are generated have the format that is asked of a key.
use vibe_shield.Prelude.{
  ℕ, zero, suc, ◌%◌, ◌<◌, ◌≡◌, refl, ap, Bool, true, ◌&&◌, List, [], ◌∷◌, same_text, length, all,
  ◌==◌, arith, Bool-cases, inl, inr,
}
use vibe_shield.Auth.ApiKeys.{
  key_body_length, base62, unit_at, key_body, generate_api_key, is_alphanumeric, is_plausible_key,
}

-- Every position below n passes the test.
abbrev up_to : ℕ → (ℕ → Bool) → Bool
up_to zero p = true
up_to (suc n) p = p n && up_to n p

up_to-lem : (n : ℕ) (p : ℕ → Bool) (i : ℕ) → up_to n p ≡ true → i < n → p i ≡ true
up_to-lem zero p i h lt = absurd (omega arith)
up_to-lem (suc n) p i h lt = elim (Bool-cases (i == n)) [
  | inl q ↦ let same : i ≡ n = ground arith in rw same (ground arith)
  | inr q ↦ up_to-lem n p i (ground arith) (ground arith)
]

base62-alphanumeric : up_to 62 (λ i. is_alphanumeric (unit_at i base62)) ≡ true
base62-alphanumeric = refl

key_body-alphanumeric : (bytes : List ℕ) → all is_alphanumeric (key_body bytes) ≡ true
unfolding key_body
key_body-alphanumeric [] = refl
key_body-alphanumeric (b ∷ bytes) =
    rw
      (up_to-lem 62 (λ i. is_alphanumeric (unit_at i base62)) (b % 62) base62-alphanumeric
        (omega arith))
      (key_body-alphanumeric bytes)

length-key_body : (bytes : List ℕ) → length (key_body bytes) ≡ length bytes
unfolding key_body
length-key_body [] = refl
length-key_body (b ∷ bytes) = ap suc (length-key_body bytes)

-- A key made of 24 random bytes, whichever they are, is a plausible key.
pub is_plausible-generate_api_key :
    (bytes : List ℕ)
    → length bytes ≡ key_body_length
    → is_plausible_key (generate_api_key bytes) ≡ true
unfolding is_plausible_key generate_api_key same_text
is_plausible-generate_api_key bytes h =
    rw (key_body-alphanumeric bytes, length-key_body bytes, h) refl

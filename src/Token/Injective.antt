-- ===== src/Token/Injective.antt =====
-- Two tokens are spelled alike only if they have the entity type and the number in common.
use mathlib.Core.List.{append_cancel_right, head-eq_of_cons-eq, tail-eq_of_cons-eq}
use vibe_shield.Prelude.{
  ℕ, ◌≡◌, refl, sym, ap, ◌∙◌, [], ◌∷◌, ◌++◌, Text, arith, IsDigits, decimal, decimal-IsDigits,
  decimal_injective,
}
use vibe_shield.Token.{format_token}

no_underscore : (d e t : Text) → IsDigits d → d ≡ e ++ b'_' ∷ t → ⊥
no_underscore [] [] t h p = cc
no_underscore [] (c ∷ e) t h p = cc
no_underscore (x ∷ d) [] t (h, hs) p = let same : x ≡ b'_' = head-eq_of_cons-eq p in ground arith
no_underscore (x ∷ d) (c ∷ e) t (h, hs) p = no_underscore d e t hs (tail-eq_of_cons-eq p)

split_underscore :
    (e e' d d' : Text)
    → IsDigits d
    → IsDigits d'
    → e ++ b'_' ∷ d ≡ e' ++ b'_' ∷ d'
    → (e ≡ e') × (d ≡ d')
split_underscore [] [] d d' h h' p = (refl, tail-eq_of_cons-eq p)
split_underscore [] (c ∷ e') d d' h h' p = absurd (no_underscore d e' d' h (tail-eq_of_cons-eq p))
split_underscore (c ∷ e) [] d d' h h' p =
    absurd (no_underscore d' e d h' (sym (tail-eq_of_cons-eq p)))
split_underscore (c ∷ e) (c' ∷ e') d d' h h' p =
    let (same, numbers) = split_underscore e e' d d' h h' (tail-eq_of_cons-eq p) in
    (cc (head-eq_of_cons-eq p), numbers)

append_regroup : (e d : Text) → e ++ (b'_' ∷ (d ++ b'>' ∷ [])) ≡ (e ++ b'_' ∷ d) ++ b'>' ∷ []
append_regroup [] d = refl
append_regroup (c ∷ e) d = ap (◌∷◌ c) (append_regroup e d)

-- Whatever the entity types are, two tokens spelled alike have the same type and number.
pub format_token_injective :
    (e e' : Text) (m n : ℕ) → format_token e m ≡ format_token e' n → (e ≡ e') × (m ≡ n)
unfolding format_token
format_token_injective e e' m n p =
    let body =
      sym (append_regroup e (decimal m)) ∙ tail-eq_of_cons-eq p ∙ append_regroup e' (decimal n) in
    let (same, numbers) =
      split_underscore e e' (decimal m) (decimal n) (decimal-IsDigits m) (decimal-IsDigits n)
        (append_cancel_right _ _ _ body) in
    (same, decimal_injective m n numbers)

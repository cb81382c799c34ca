-- ===== src/Jobs/Cron/Steps.antt =====
-- Which values a part of a field adds.
use native.Mathlib.Nat.{mod-eq_of_lt, mod-eq-sub-mod}
use vibe_shield.Prelude.{
  ℕ, zero, suc, ◌+◌, ◌-◌, ◌%◌, ◌≤◌, ◌<◌, ◌≡◌, refl, sym, subst, ◌∙◌, ◌⊎◌, inl, inr, ◌↔◌, true, List,
  [], ◌∷◌, ◌++◌, leb, ◌==◌, Bool-cases, arith,
}
use vibe_shield.Jobs.Cron.{has, add, add_steps}

has-append :
    (x v : ℕ) (out : List ℕ) → (has x (out ++ v ∷ []) ≡ true) ↔ ((has x out ≡ true) ⊎ (v ≡ x))
has-append x v [] =
    (λ h. inr (ground arith), λ (h : _ ⊎ _). elim h [ inl a ↦ cc | inr b ↦ ground arith ])
has-append x v (n ∷ out) = elim (Bool-cases (n == x)) [
  | inl q ↦ rw q (λ h. inl refl, λ h. refl)
  | inr q ↦ rw q (has-append x v out)
]

has-add : (x v : ℕ) (out : List ℕ) → (has x (add v out) ≡ true) ↔ ((has x out ≡ true) ⊎ (v ≡ x))
has-add x v out = elim (Bool-cases (has v out)) [
  | inl q ↦
      rw q (
        λ h. inl h,
        λ (h : _ ⊎ _). elim h [ inl a ↦ a | inr e ↦ subst (λ y. has y out ≡ true) e q ],
      )
  | inr q ↦ rw q (has-append x v out)
]

-- A value of the range, a number of steps from its start.
abbrev pub IsStep : ℕ → ℕ → ℕ → ℕ → Type 0
IsStep v last step x = (v ≤ x) × (x ≤ last) × ((x - v) % step ≡ 0)

IsStep-next :
    (v last step x : ℕ)
    → 0 < step
    → v ≤ last
    → IsStep v last step x ↔ ((v ≡ x) ⊎ IsStep (v + step) last step x)
IsStep-next v last step x pos on = (
  λ (a, b, c). elim (Bool-cases (x == v)) [
    | inl q ↦ inl (ground arith)
    | inr q ↦ elim (Bool-cases (leb (v + step) x)) [
      | inl far ↦
          let ge : v + step ≤ x = ground arith in
          let less : x - (v + step) ≡ (x - v) - step = omega arith in
          let small : step ≤ x - v = omega arith in
          inr (ge, b, rw less (sym (mod-eq-sub-mod small) ∙ c))
      | inr near ↦
          let lt : x - v < step = ground arith in
          let none : x - v ≡ 0 = sym (mod-eq_of_lt lt) ∙ c in absurd (ground arith)
    ]
  ],
  λ (h : _ ⊎ _). elim h [
    | inl e ↦ let z : x - v ≡ 0 = omega arith in (omega arith, omega arith, rw z (mod-eq_of_lt pos))
    | inr (a, b, c) ↦
        let less : x - (v + step) ≡ (x - v) - step = omega arith in
        let small : step ≤ x - v = omega arith in
        (omega arith, b, mod-eq-sub-mod small ∙ rw (← less) c)
  ],
)

-- The loop adds to a set exactly the numbers from the first to the last that are a multiple of the
-- step away from the first, where the step is positive and the fuel covers the range.
pub has-add_steps :
    (f v last step x : ℕ) (out : List ℕ)
    → 0 < step
    → last < v + f
    → (has x (add_steps f v last step out) ≡ true) ↔ ((has x out ≡ true) ⊎ IsStep v last step x)
unfolding add_steps
has-add_steps zero v last step x out pos enough =
    (λ h. inl h, λ (h : _ ⊎ _). elim h [ inl a ↦ a | inr (a, b, c) ↦ absurd (omega arith) ])
has-add_steps (suc f) v last step x out pos enough = elim (Bool-cases (leb v last)) [
  | inr over ↦
      rw over
        (λ h. inl h, λ (h : _ ⊎ _). elim h [ inl a ↦ a | inr (a, b, c) ↦ absurd (ground arith) ])
  | inl on ↦
      let le : v ≤ last = ground arith in
      let (to, back) = has-add_steps f (v + step) last step x (add v out) pos (omega arith) in
      let (add_to, add_back) = has-add x v out in
      let (step_to, step_back) = IsStep-next v last step x pos le in
      rw on (
        λ h. elim (to h) [
          | inl a ↦ elim (add_to a) [ inl b ↦ inl b | inr e ↦ inr (step_back (inl e)) ]
          | inr s ↦ inr (step_back (inr s))
        ],
        λ (h : _ ⊎ _). elim h [
          | inl a ↦ back (inl (add_back (inl a)))
          | inr s ↦ elim (step_to s) [
            | inl e ↦ back (inl (add_back (inr e)))
            | inr t ↦ back (inr t)
          ]
        ],
      )
]

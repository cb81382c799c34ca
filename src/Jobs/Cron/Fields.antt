-- ===== src/Jobs/Cron/Fields.antt =====
-- The values of a field.
use vibe_shield.Prelude.{
  ℕ, zero, suc, ◌+◌, ◌-◌, ◌≤◌, ◌≡◌, refl, subst, inl, inr, false, ◌&&◌, List, [], ◌∷◌, Option, Text,
  codes, same_text, leb, split_on, cut_at, All, All-append, Result, ok, err, Bool-cases,
  Option-cases, Result-cases, arith, ◌>>=◌,
}
use vibe_shield.Jobs.Cron.{
  CronParseError, has, add, add_steps, step_of, bounds_of, range_of, single_of, second, expand_part,
  expand_parts, parse_field, is_empty, empty_field,
}

abbrev pub IsWithin : ℕ → ℕ → ℕ → Type 0
IsWithin min max n = (min ≤ n) × (n ≤ max)

add-IsWithin :
    (min max n : ℕ) (out : List ℕ)
    → IsWithin min max n
    → All (IsWithin min max) out
    → All (IsWithin min max) (add n out)
add-IsWithin min max n out b h = elim (Bool-cases (has n out)) [
  | inl q ↦ rw q h
  | inr q ↦ rw q (All-append (IsWithin min max) out (n ∷ []) h (b, tt))
]

add_steps-IsWithin :
    (f v last step min max : ℕ) (out : List ℕ)
    → min ≤ v
    → last ≤ max
    → All (IsWithin min max) out
    → All (IsWithin min max) (add_steps f v last step out)
unfolding add_steps
add_steps-IsWithin zero v last step min max out a b h = h
add_steps-IsWithin (suc f) v last step min max out a b h = elim (Bool-cases (leb v last)) [
  | inl on ↦ rw on (
      add_steps-IsWithin f (v + step) last step min max (add v out) (omega arith) b
        (add-IsWithin min max v out (a, ground arith) h))
  | inr over ↦ rw over h
]

-- Postconditions of a parse.
abbrev Gives : {A : Type 0} → (A → Type 0) → Result CronParseError A → Type 0
Gives P (ok a) = P a
Gives P (err e) = Unit

module _ (number : Text → Option ℕ) where
  range_of-IsWithin :
      (part s e : Text) (min max : ℕ)
      → Gives (λ (b : ℕ × ℕ). (min ≤ b.0) × (b.1 ≤ max)) (range_of number part s e min max)
  range_of-IsWithin part s e min max = elim (Option-cases (number s)) [
    | inl q ↦ rw q tt
    | inr (start, q) ↦ elim (Option-cases (number e)) [
      | inl r ↦ rw (q, r) tt
      | inr (last, r) ↦ elim (Bool-cases (leb min start && (leb last max && leb start last))) [
        | inl t ↦ rw (q, r) (rw t (ground arith, ground arith))
        | inr t ↦ rw (q, r) (rw t tt)
      ]
    ]
  ]

  single_of-IsWithin :
      (part body : Text) (min max : ℕ)
      → Gives (λ (b : ℕ × ℕ). (min ≤ b.0) × (b.1 ≤ max)) (single_of number part body min max)
  single_of-IsWithin part body min max = elim (Option-cases (number body)) [
    | inl q ↦ rw q tt
    | inr (n, q) ↦ elim (Bool-cases (leb min n && leb n max)) [
      | inl t ↦ rw q (rw t (ground arith, ground arith))
      | inr t ↦ rw q (rw t tt)
    ]
  ]

  bounds_of-IsWithin :
      (part body : Text) (min max : ℕ)
      → Gives (λ (b : ℕ × ℕ). (min ≤ b.0) × (b.1 ≤ max)) (bounds_of number part body min max)
  unfolding bounds_of
  bounds_of-IsWithin part body min max = elim (Bool-cases (same_text body (codes "*"))) [
    | inl all ↦ rw all (omega arith, omega arith)
    | inr other ↦ rw other (elim (Option-cases (cut_at b'-' body)) [
      | inl q ↦ rw (q, bounds_of) (single_of-IsWithin part body min max)
      | inr ((s, rest), q) ↦
          rw (q, bounds_of) (range_of-IsWithin part s (second (split_on b'-' body)) min max)
    ])
  ]

  expand_part-IsWithin :
      (part : Text) (min max : ℕ) (out : List ℕ)
      → All (IsWithin min max) out
      → Gives (All (IsWithin min max)) (expand_part number part min max out)
  unfolding expand_part
  expand_part-IsWithin part min max out h = elim (Result-cases (step_of number part)) [
    | inr (x, q) ↦ rw (q, expand_part) tt
    | inl ((body, step), q) ↦ elim (Result-cases (bounds_of number part body min max)) [
      | inr (x, r) ↦ rw (q, expand_part) (rw (r, ◌>>=◌) tt)
      | inl ((first, last), r) ↦
          let (a, b) =
            subst (Gives (λ (b : ℕ × ℕ). (min ≤ b.0) × (b.1 ≤ max))) r
              (bounds_of-IsWithin part body min max) in
          rw (q, expand_part)
            (rw (r, ◌>>=◌)
              (add_steps-IsWithin (suc (last - first)) first last step min max out a b h))
    ]
  ]

  expand_parts-IsWithin :
      (parts : List Text) (min max : ℕ) (out : List ℕ)
      → All (IsWithin min max) out
      → Gives (All (IsWithin min max)) (expand_parts number parts min max out)
  unfolding expand_parts
  expand_parts-IsWithin [] min max out h = h
  expand_parts-IsWithin (part ∷ parts) min max out h =
      elim (Result-cases (expand_part number part min max out)) [
        | inr (x, q) ↦ rw (q, expand_parts) tt
        | inl (out', q) ↦
            rw (q, expand_parts)
              (expand_parts-IsWithin parts min max out' (
                subst (Gives (All (IsWithin min max))) q (expand_part-IsWithin part min max out h)))
      ]

  -- A field that parses has a value, and all its values are within the field's bounds.
  pub parse_field-IsWithin :
      (raw : Text) (min max : ℕ) (values : List ℕ)
      → parse_field number raw min max ≡ ok values
      → All (IsWithin min max) values × (is_empty values ≡ false)
  unfolding parse_field
  parse_field-IsWithin raw min max values done =
      elim (Result-cases (expand_parts number (split_on b',' raw) min max [])) [
        | inr (x, q) ↦
            let fails : parse_field number raw min max ≡ err x = rw (q, parse_field) refl in
            absurd (cc (fails, done))
        | inl (out, q) ↦
            let within =
              subst (Gives (All (IsWithin min max))) q
                (expand_parts-IsWithin (split_on b',' raw) min max [] tt) in
            elim (Bool-cases (is_empty out)) [
              | inl nothing ↦
                  let fails : parse_field number raw min max ≡ err (empty_field raw) =
                    rw (q, parse_field) (rw nothing refl) in
                  absurd (cc (fails, done))
              | inr some_value ↦
                  let gives : parse_field number raw min max ≡ ok out =
                    rw (q, parse_field) (rw some_value refl) in
                  let same : out ≡ values = cc (gives, done) in rw (← same) (within, some_value)
            ]
      ]

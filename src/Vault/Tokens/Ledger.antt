-- ===== src/Vault/Tokens/Ledger.antt =====
-- What the token vault promises, with no tables, keys or ciphertexts: a ledger of the tokens that
-- were handed out, newest first.
use vibe_shield.Prelude.{
  ℕ, suc, ◌≤◌, ◌≡◌, ◌≢◌, refl, sym, ap, ◌∙◌, inl, inr, Bool, true, false, ◌&&◌, List, [], ◌∷◌,
  Option, none, some, Text, same_text, same_text_iff, same_text_refl, All, length, select, find?,
  arith, Option-cases, Bool-cases, find?-passes, and_right, find?-eq-none, subst, subst₂,
}
use vibe_shield.Token.{format_token}
use vibe_shield.Token.Injective.{format_token_injective}

pub record Entry : Type 0 where
  pub session : Text
  pub entity : Text
  pub cleartext : Text
  pub token : Text

abbrev pub has_cleartext : Text → Text → Entry → Bool
has_cleartext session cleartext e = same_text e.session session && same_text e.cleartext cleartext

abbrev pub has_token : Text → Text → Entry → Bool
has_token session token e = same_text e.session session && same_text e.token token

abbrev pub has_entity : Text → Text → Entry → Bool
has_entity session entity e = same_text e.session session && same_text e.entity entity

abbrev pub count_of : Text → Text → List Entry → ℕ
count_of session entity l = length (select (has_entity session entity) l)

abbrev pub next_token : Text → Text → List Entry → Text
next_token session entity l = format_token entity (suc (count_of session entity l))

-- The token of a cleartext, and the ledger after it was asked for.
unfoldable pub assign : Text → Text → Text → List Entry → Text × List Entry
assign session entity cleartext l = elim (find? (has_cleartext session cleartext) l) [
  | some e ↦ (e.token, l)
  | none ↦ (
    next_token session entity l,
    record {
      session = session;
      entity = entity;
      cleartext = cleartext;
      token = next_token session entity l;
    }
        ∷ l,
  )
]

abbrev pub cleartext_of : Text → Text → List Entry → Option Text
cleartext_of session token l = elim (find? (has_token session token) l) [
  | none ↦ none
  | some e ↦ some e.cleartext
]

-- Each token was the next one of its type when it was entered, and its cleartext was new.
abbrev pub IsLedger : List Entry → Type 0
IsLedger [] = Unit
IsLedger (e ∷ l) =
    (e.token ≡ next_token e.session e.entity l)
    × (find? (has_cleartext e.session e.cleartext) l ≡ none)
    × IsLedger l

abbrev Numbered : List Entry → Entry → Type 0
Numbered l e = (m : ℕ) × (e.token ≡ format_token e.entity m) × (m ≤ count_of e.session e.entity l)

Numbered-cons : (x : Entry) (l : List Entry) (e : Entry) → Numbered l e → Numbered (x ∷ l) e
Numbered-cons x l e (m, same, bound) = (m, same, ground arith)

All-Numbered-cons :
    (x : Entry) (l es : List Entry) → All (Numbered l) es → All (Numbered (x ∷ l)) es
All-Numbered-cons x l [] h = tt
All-Numbered-cons x l (e ∷ es) (h, hs) = (Numbered-cons x l e h, All-Numbered-cons x l es hs)

IsLedger-Numbered : (l : List Entry) → IsLedger l → All (Numbered l) l
IsLedger-Numbered [] h = tt
IsLedger-Numbered (e ∷ l) (next, _, h) = (
  (
    suc (count_of e.session e.entity l),
    next,
    ground (arith, same_text_refl e.session, same_text_refl e.entity),
  ),
  All-Numbered-cons e l l (IsLedger-Numbered l h),
)

module _ (session entity : Text) (l : List Entry) where
  not_next : (e : Entry) → Numbered l e → has_token session (next_token session entity l) e ≡ false
  not_next e (m, named, bound) =
      elim (Bool-cases (has_token session (next_token session entity l) e)) [
        | inr no_match ↦ no_match
        | inl match ↦
            let here : e.session ≡ session = (same_text_iff _ _).0 (ground arith) in
            let same : e.token ≡ next_token session entity l =
              (same_text_iff _ _).0 (ground arith) in
            let (types, numbers) = format_token_injective _ _ m _ (sym named ∙ same) in
            let bound' : m ≤ count_of session entity l =
              subst₂ (λ s t. m ≤ count_of s t l) here types bound in
            absurd (omega arith)
      ]

  not_next-All :
      (es : List Entry)
      → All (Numbered l) es
      → All (λ e. has_token session (next_token session entity l) e ≡ false) es
  not_next-All [] h = tt
  not_next-All (e ∷ es) (h, hs) = (not_next e h, not_next-All es hs)

  -- The next token of a type is in use nowhere in the session.
  pub next_token_fresh :
      IsLedger l → find? (has_token session (next_token session entity l)) l ≡ none
  next_token_fresh h = find?-eq-none _ l (not_next-All l (IsLedger-Numbered l h))

has_token-head : (e : Entry) → has_token e.session e.token e ≡ true
has_token-head e = ground (arith, same_text_refl e.session, same_text_refl e.token)

-- A newer entry does not hold a token that finds an older one.
not_newer :
    (x : Entry) (l : List Entry) (session token : Text)
    → x.token ≡ next_token x.session x.entity l
    → IsLedger l
    → find? (has_token session token) l ≢ none
    → has_token session token x ≡ false
not_newer x l session token next h older = elim (Bool-cases (has_token session token x)) [
  | inr apart ↦ apart
  | inl match ↦
      let here : x.session ≡ session = (same_text_iff _ _).0 (ground arith) in
      let same : x.token ≡ token = (same_text_iff _ _).0 (ground arith) in
      let fresh = next_token_fresh x.session x.entity l h in
      absurd (older (subst₂ (λ s t. find? (has_token s t) l ≡ none) here (sym next ∙ same) fresh))
]

-- An entry found by its cleartext is the one that its token finds.
pub found_by_token :
    (l : List Entry) (session cleartext : Text) {e : Entry}
    → IsLedger l
    → find? (has_cleartext session cleartext) l ≡ some e
    → find? (has_token session e.token) l ≡ some e
found_by_token [] session cleartext h f = cc
found_by_token (x ∷ l) session cleartext {e} (next, new, h) f =
    elim (Bool-cases (has_cleartext session cleartext x)) [
      | inl here ↦
          let same : x ≡ e = ground arith in
          subst (λ y. find? (has_token session y.token) (x ∷ l) ≡ some y) same
            (ground (arith, same_text_refl x.token))
      | inr later ↦
          let found = found_by_token l session cleartext {e = e} h (ground arith) in
          let apart = not_newer x l session e.token next h (λ q. cc (q, found)) in rw apart found
    ]

pub assign_old :
    (session entity cleartext : Text) (l : List Entry) {e : Entry}
    → find? (has_cleartext session cleartext) l ≡ some e
    → assign session entity cleartext l ≡ (e.token, l)
unfolding assign
assign_old session entity cleartext l q = rw (q, assign)

abbrev pub new_entry : Text → Text → Text → List Entry → Entry
new_entry session entity cleartext l = record {
  session = session;
  entity = entity;
  cleartext = cleartext;
  token = next_token session entity l;
}

pub assign_new :
    (session entity cleartext : Text) (l : List Entry)
    → find? (has_cleartext session cleartext) l ≡ none
    → assign session entity cleartext l
      ≡ (next_token session entity l, new_entry session entity cleartext l ∷ l)
unfolding assign
assign_new session entity cleartext l q = rw (q, assign)

assign_cases {κ} :
    (P : Text × List Entry → Type κ) (session entity cleartext : Text) (l : List Entry)
    → ((e : Entry) → find? (has_cleartext session cleartext) l ≡ some e → P (e.token, l))
    → (find? (has_cleartext session cleartext) l ≡ none
        → P (next_token session entity l, new_entry session entity cleartext l ∷ l))
    → P (assign session entity cleartext l)
assign_cases P session entity cleartext l old new =
    elim (Option-cases (find? (has_cleartext session cleartext) l)) [
      | inl q ↦ subst P (sym (assign_new session entity cleartext l q)) (new q)
      | inr (e, q) ↦ subst P (sym (assign_old session entity cleartext l q)) (old e q)
    ]

module _ (session entity cleartext : Text) (l : List Entry) (h : IsLedger l) where
  pub assign-IsLedger : IsLedger (assign session entity cleartext l).1
  assign-IsLedger =
      assign_cases (λ r. IsLedger r.1) session entity cleartext l (λ e q. h) (λ q. (refl, q, h))

  -- The token that is handed out stands for the cleartext.
  pub cleartext_of-assign :
      cleartext_of session
        (assign session entity cleartext l).0
        (assign session entity cleartext l).1
      ≡ some cleartext
  cleartext_of-assign =
      assign_cases (λ r. cleartext_of session r.0 r.1 ≡ some cleartext) session entity cleartext l
        (λ e q.
          let same : e.cleartext ≡ cleartext =
            (same_text_iff _ _).0
              (and_right _ _ (find?-passes (has_cleartext session cleartext) l q)) in
          rw (found_by_token l session cleartext h q, cleartext_of) (ap some same))
        (λ q. ground (arith, same_text_refl session, same_text_refl (next_token session entity l)))

  -- What a token stood for before, in whatever session, it stands for afterwards.
  pub cleartext_of-persists :
      (s t : Text) {c : Text}
      → cleartext_of s t l ≡ some c
      → cleartext_of s t (assign session entity cleartext l).1 ≡ some c
  cleartext_of-persists s t {c} known =
      assign_cases (λ r. cleartext_of s t r.1 ≡ some c) session entity cleartext l (λ e q. known)
        (λ q.
          rw
            (
              not_newer (new_entry session entity cleartext l) l s t refl h
                  (λ r. ground (arith, known, r)),
              cleartext_of,
            )
            known)

  -- The cleartext is found afterwards, with the token that was handed out.
  pub found-assign :
      (e : Entry) × (find? (has_cleartext session cleartext) (assign session entity cleartext l).1
        ≡ some e)
      × (e.token ≡ (assign session entity cleartext l).0)
  found-assign =
      assign_cases
        (λ r.
          (e : Entry) × (find? (has_cleartext session cleartext) r.1 ≡ some e) × (e.token ≡ r.0))
        session entity cleartext l (λ e q. (e, q, refl))
        (λ q. (
          new_entry session entity cleartext l,
          ground (arith, same_text_refl session, same_text_refl cleartext),
          refl,
        ))

-- ===== src/Vault/Tokens/Cascade.antt =====
-- Ledgers and tables under the operations on sessions: a deletion takes all rows of a session, by
-- the foreign keys of packages/schema/src/schema/tokens.ts and token-index.ts; an update of the
-- expiry concerns none.
use vibe_shield.Prelude.{
  ℕ, ◌≡◌, refl, sym, ap, ◌∙◌, inl, inr, Bool, true, false, not, List, [], ◌∷◌, Option, some, Text,
  same_text, same_text_iff, select, find?, update, suc, arith, Bool-cases, find?-none-select,
}
use vibe_shield.Token.{format_token}
use vibe_shield.Vault.Crypto.{Platform}
use vibe_shield.Vault.Rows.{Session, TokenRow, IndexRow, has_id}
use vibe_shield.Vault.Sessions.{is_deleted}
use vibe_shield.Vault.Tokens.Ledger.{Entry, count_of, IsLedger}
use vibe_shield.Vault.Tokens.Refinement.{session_key, Row, Represents}

-- A session is kept with all its entries, or goes with all of them.
module _ (keep : Text → Bool) where
  count_of-select :
      (session entity : Text) (l : List Entry)
      → keep session ≡ true
      → count_of session entity (select (λ e. keep e.session) l) ≡ count_of session entity l
  count_of-select session entity [] h = refl
  count_of-select session entity (e ∷ l) h = elim (Bool-cases (same_text e.session session)) [
    | inl here ↦
        let kept : keep e.session ≡ true = rw ((same_text_iff _ _).0 here) h in
        rw kept (ground (arith, count_of-select session entity l h))
    | inr there ↦ elim (Bool-cases (keep e.session)) [
      | inl kept ↦ rw kept (rw there (count_of-select session entity l h))
      | inr left ↦ rw left (rw there (count_of-select session entity l h))
    ]
  ]

  pub IsLedger-select : (l : List Entry) → IsLedger l → IsLedger (select (λ e. keep e.session) l)
  IsLedger-select [] h = tt
  IsLedger-select (e ∷ l) (next, new, h) = elim (Bool-cases (keep e.session)) [
    | inl kept ↦ rw kept (
      next
          ∙ ap (λ n. format_token e.entity (suc n))
              (sym (count_of-select e.session e.entity l kept)),
      find?-none-select _ _ l new,
      IsLedger-select l h,
    )
    | inr left ↦ rw left (IsLedger-select l h)
  ]

module _ (p : Platform) (keys : Text → Option Text) where
  Row-moves :
      {ss ss' : List Session} {r : TokenRow} {i : IndexRow} {e : Entry}
      → session_key p keys ss' e.session ≡ session_key p keys ss e.session
      → Row p keys ss r i e
      → Row p keys ss' r i e
  Row-moves same w = record {
    key = w.key;
    keyed = same ∙ w.keyed;
    row_session = w.row_session;
    row_token = w.row_token;
    row_entity = w.row_entity;
    row_hash = w.row_hash;
    sealed = w.sealed;
    index_session = w.index_session;
    index_token = w.index_token;
    index_hash = w.index_hash;
    readable = w.readable;
  }

  pub Represents-moves :
      (ss ss' : List Session)
      → ((s k : Text)
          → session_key p keys ss s ≡ some k
          → session_key p keys ss' s ≡ session_key p keys ss s)
      → (rs : List TokenRow) (is : List IndexRow) (es : List Entry) → Represents p keys ss rs is es
      → Represents p keys ss' rs is es
  Represents-moves ss ss' same [] [] [] h = tt
  Represents-moves ss ss' same (r ∷ rs) (i ∷ is) (e ∷ es) (w, h) =
      (Row-moves (same e.session w.key w.keyed) w, Represents-moves ss ss' same rs is es h)
  Represents-moves ss ss' same [] [] (e ∷ es) h = absurd h
  Represents-moves ss ss' same [] (i ∷ is) es h = absurd h
  Represents-moves ss ss' same (r ∷ rs) is es h = absurd h

  pub Represents-select :
      (ss ss' : List Session) (keep : Text → Bool)
      → ((s : Text) → keep s ≡ true → session_key p keys ss' s ≡ session_key p keys ss s)
      → (rs : List TokenRow) (is : List IndexRow) (es : List Entry) → Represents p keys ss rs is es
      → Represents p keys ss'
          (select (λ r. keep r.session_id) rs)
          (select (λ i. keep i.session_id) is)
          (select (λ e. keep e.session) es)
  Represents-select ss ss' keep same [] [] [] h = tt
  Represents-select ss ss' keep same (r ∷ rs) (i ∷ is) (e ∷ es) (w, h) =
      let same_row = ap keep w.row_session in
      let same_index = ap keep w.index_session in
      elim (Bool-cases (keep e.session)) [
        | inl kept ↦
            rw (same_row ∙ kept, same_index ∙ kept, kept)
              (Row-moves (same e.session kept) w, Represents-select ss ss' keep same rs is es h)
        | inr left ↦
            rw (same_row ∙ left, same_index ∙ left, left)
              (Represents-select ss ss' keep same rs is es h)
      ]
  Represents-select ss ss' keep same [] [] (e ∷ es) h = absurd h
  Represents-select ss ss' keep same [] (i ∷ is) es h = absurd h
  Represents-select ss ss' keep same (r ∷ rs) is es h = absurd h

pub find?-delete :
    (gone : Session → Bool) (s : Text) (ss : List Session)
    → is_deleted gone ss s ≡ false
    → find? (has_id s) (select (λ x. not (gone x)) ss) ≡ find? (has_id s) ss
find?-delete gone s [] h = refl
find?-delete gone s (x ∷ ss) h = elim (Bool-cases (gone x)) [
  | inl out ↦
      let other : same_text x.id s ≡ false = ground arith in
      rw (out, other) (find?-delete gone s ss (ground arith))
  | inr stays ↦ rw stays (ground (arith, find?-delete gone s ss))
]

-- The key of a session depends on its tenant alone, which an update of the expiry leaves.
pub session_key-touch :
    (p : Platform) (keys : Text → Option Text) (id s : Text) (expiry : ℕ) (ss : List Session)
    → session_key p keys (update (has_id id) (λ x. record x { expires_at = expiry }) ss) s
      ≡ session_key p keys ss s
session_key-touch p keys id s expiry [] = refl
session_key-touch p keys id s expiry (x ∷ ss) = elim (Bool-cases (has_id id x)) [
  | inl touched ↦ elim (Bool-cases (same_text x.id s)) [
    | inl here ↦ rw (touched, session_key) (rw (here, session_key) refl)
    | inr there ↦
        rw (touched, session_key)
          (rw (there, session_key) (session_key-touch p keys id s expiry ss))
  ]
  | inr other ↦ elim (Bool-cases (same_text x.id s)) [
    | inl here ↦ rw (other, session_key) (rw (here, session_key) refl)
    | inr there ↦
        rw (other, session_key) (rw (there, session_key) (session_key-touch p keys id s expiry ss))
  ]
]

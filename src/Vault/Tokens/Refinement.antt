-- ===== src/Vault/Tokens/Refinement.antt =====
-- The tables of the vault implement the ledger: how rows and entries correspond.
use mathlib.Core.List.{append_cancel_left}
use vibe_shield.Prelude.{
  ◌≡◌, refl, sym, ap, subst₂, ◌∙◌, ◌⊎◌, inl, inr, Bool, true, false, List, [], ◌∷◌, Option, none,
  some, Text, codes, same_text_iff, same_text_refl, length, select, find?, ok, arith, Bool-cases,
}
use vibe_shield.Vault.Crypto.{Platform, IsCollisionFree, decrypt, token_dedupe_hash}
use vibe_shield.Vault.Rows.{Session, TokenRow, IndexRow, has_id, is_token, is_typed, is_indexed}
use vibe_shield.Vault.Tokens.Ledger.{Entry, has_cleartext, has_token, has_entity, count_of}

Bool-eq : (a b : Bool) → (a ≡ true → b ≡ true) → (b ≡ true → a ≡ true) → a ≡ b
Bool-eq true b f g = sym (f refl)
Bool-eq false true f g = g refl
Bool-eq false false f g = refl

module _ (p : Platform) (keys : Text → Option Text) where
  -- The key of a session's tenant.
  abbrev pub session_key : List Session → Text → Option Text
  session_key sessions id = elim (find? (has_id id) sessions) [
    | none ↦ none
    | some s ↦ keys s.tenant_id
  ]

  -- A row of each table stands for an entry.
  pub record Row (sessions : List Session) (r : TokenRow) (i : IndexRow) (e : Entry) : Type 0 where
    pub key : Text
    pub keyed : session_key sessions e.session ≡ some key
    pub row_session : r.session_id ≡ e.session
    pub row_token : r.token ≡ e.token
    pub row_entity : r.entity_type ≡ e.entity
    pub row_hash : r.hash ≡ token_dedupe_hash p key e.session e.cleartext
    pub sealed : decrypt p r.cleartext_encrypted key none ≡ ok (p.encode e.cleartext)
    pub index_session : i.session_id ≡ e.session
    pub index_token : i.token ≡ e.token
    pub index_hash : i.hash ≡ token_dedupe_hash p key e.session e.cleartext
    pub readable : p.well_formed e.cleartext ≡ true

  abbrev pub Represents : List Session → List TokenRow → List IndexRow → List Entry → Type 0
  Represents sessions [] [] [] = Unit
  Represents sessions (r ∷ rs) (i ∷ is) (e ∷ es) = Row sessions r i e × Represents sessions rs is es
  Represents sessions _ _ _ = ⊥

  -- What a search of the tables and the same search of the ledger find.
  abbrev pub Found : List Session → Option TokenRow → Option IndexRow → Option Entry → Type 0
  Found sessions r i e =
      ((r ≡ none) × (i ≡ none) × (e ≡ none))
      ⊎ ((r' : TokenRow) × (i' : IndexRow) × (e' : Entry) × (r ≡ some r')
          × (i ≡ some i')
          × (e ≡ some e')
          × Row sessions r' i' e')

  pub find?-Represents :
      (sessions : List Session) (row : TokenRow → Bool) (index : IndexRow → Bool)
      (entry : Entry → Bool)
      → ((r : TokenRow) (i : IndexRow) (e : Entry)
          → Row sessions r i e
          → (row r ≡ entry e) × (index i ≡ entry e))
      → (rs : List TokenRow) (is : List IndexRow) (es : List Entry) → Represents sessions rs is es
      → Found sessions (find? row rs) (find? index is) (find? entry es)
  find?-Represents sessions row index entry agree [] [] [] h = inl (refl, refl, refl)
  find?-Represents sessions row index entry agree (r ∷ rs) (i ∷ is) (e ∷ es) (h, hs) =
      let (same, same') = agree r i e h in
      elim (Bool-cases (entry e)) [
        | inl here ↦ inr (r, i, e, rw (same, here), rw (same', here), rw here, h)
        | inr there ↦
            rw (same, same', there) (find?-Represents sessions row index entry agree rs is es hs)
      ]
  find?-Represents sessions row index entry agree [] [] (e ∷ es) h = absurd h
  find?-Represents sessions row index entry agree [] (i ∷ is) es h = absurd h
  find?-Represents sessions row index entry agree (r ∷ rs) is es h = absurd h

  pub same_key :
      (sessions : List Session) (s t : Text) {k l : Text}
      → session_key sessions s ≡ some k
      → session_key sessions t ≡ some l
      → s ≡ t
      → k ≡ l
  same_key sessions s t {k} {l} h h' e = cc (h, h', ap (session_key sessions) e)

  pub token_agrees :
      (sessions : List Session) (session token : Text) (r : TokenRow) (i : IndexRow) (e : Entry)
      → Row sessions r i e
      → is_token session token r ≡ has_token session token e
  token_agrees sessions session token r i e w = rw (w.row_session, w.row_token)

  -- The rows of a type are as many as the entries.
  pub count-Represents :
      (sessions : List Session) (session entity : Text) (rs : List TokenRow) (is : List IndexRow)
      (es : List Entry)
      → Represents sessions rs is es
      → length (select (is_typed session entity) rs) ≡ count_of session entity es
  count-Represents sessions session entity [] [] [] h = refl
  count-Represents sessions session entity (r ∷ rs) (i ∷ is) (e ∷ es) (w, h) =
      let same : is_typed session entity r ≡ has_entity session entity e =
        rw (w.row_session, w.row_entity) in
      rw same (ground (arith, count-Represents sessions session entity rs is es h))
  count-Represents sessions session entity [] [] (e ∷ es) h = absurd h
  count-Represents sessions session entity [] (i ∷ is) es h = absurd h
  count-Represents sessions session entity (r ∷ rs) is es h = absurd h

  module _ (free : IsCollisionFree p) where
    hash_injective :
        (key session c c' : Text)
        → p.well_formed c ≡ true
        → p.well_formed c' ≡ true
        → token_dedupe_hash p key session c ≡ token_dedupe_hash p key session c'
        → c ≡ c'
    unfolding token_dedupe_hash
    hash_injective key session c c' h h' e =
        sym (p.decode-encode c h)
        ∙ ap p.decode (
            append_cancel_left (codes ":vs:") _ _
              (append_cancel_left (p.encode session) _ _ (free.apart key _ _ e)))
        ∙ p.decode-encode c' h'

    -- Under the key of the session two hashes are equal just if the cleartexts are.
    pub hash_agrees :
        (sessions : List Session) (session cleartext key : Text)
        → session_key sessions session ≡ some key
        → p.well_formed cleartext ≡ true
        → (r : TokenRow) (i : IndexRow) (e : Entry) → Row sessions r i e
        → is_indexed session (token_dedupe_hash p key session cleartext) i
          ≡ has_cleartext session cleartext e
    hash_agrees sessions session cleartext key keyed readable r i e w =
        rw (w.index_session, w.index_hash)
          (Bool-eq _ _
            (λ h.
              let here : e.session ≡ session = (same_text_iff _ _).0 (ground (arith, h)) in
              let hashes : token_dedupe_hash p w.key e.session e.cleartext
                  ≡ token_dedupe_hash p key session cleartext =
                (same_text_iff _ _).0 (ground (arith, h)) in
              let keys_same : w.key ≡ key = same_key sessions _ _ w.keyed keyed here in
              let hashes' =
                subst₂
                  (λ k s.
                    token_dedupe_hash p k s e.cleartext ≡ token_dedupe_hash p key session cleartext)
                  keys_same here hashes in
              let same = hash_injective key session _ _ w.readable readable hashes' in
              rw (here, same) (ground (arith, same_text_refl session, same_text_refl cleartext)))
            (λ h.
              let here : e.session ≡ session = (same_text_iff _ _).0 (ground (arith, h)) in
              let same : e.cleartext ≡ cleartext = (same_text_iff _ _).0 (ground (arith, h)) in
              let keys_same : w.key ≡ key = same_key sessions _ _ w.keyed keyed here in
              rw (keys_same, here, same)
                (ground (
                  arith,
                  same_text_refl session,
                  same_text_refl (token_dedupe_hash p key session cleartext),
                ))))

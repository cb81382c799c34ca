-- ===== src/Vault/Tokens/Laws.antt =====
-- `allocate` and `resolve` carry out the ledger.
use vibe_shield.Prelude.{
  ℕ, ◌<◌, ◌≡◌, refl, ap, ◌∙◌, inl, inr, Bool, true, false, ◌&&◌, List, ◌∷◌, Option, none, some,
  Text, same_text, same_text_iff, length, find?, any, ok, ◌>>=◌, arith, find?-none-any,
  find?-some-any, find?-passes, and_left,
}
use vibe_shield.Vault.Crypto.{
  Platform, IsCollisionFree, encrypt, decrypt, decrypt-encrypt, token_dedupe_hash, key_length,
  nonce_length,
}
use vibe_shield.Vault.Rows.{Session, TokenRow, IndexRow, Db, has_id, is_token, is_indexed}
use vibe_shield.Vault.Tokens.Ledger.{
  Entry, has_cleartext, has_token, next_token, assign, cleartext_of, IsLedger, next_token_fresh,
  new_entry, assign_old, assign_new,
}
use vibe_shield.Vault.Tokens.Refinement.{
  session_key, Row, Represents, Found, find?-Represents, token_agrees, hash_agrees,
  count-Represents, same_key,
}
use vibe_shield.Vault.Tokens.{lock_session, insert_token, insert_index, mint, allocate, resolve}

module _ (p : Platform) (keys : Text → Option Text) (free : IsCollisionFree p) where
  -- The tables of a database stand for a ledger.
  pub record Implements (db : Db) (l : List Entry) : Type 0 where
    pub ledger : IsLedger l
    pub rows : Represents p keys db.sessions db.tokens db.token_index l

  -- A live session whose tenant has a key of 32 bytes.
  pub record IsReady (db : Db) (session : Text) (now : ℕ) : Type 0 where
    pub row : Session
    pub key : Text
    pub found : find? (has_id session) db.sessions ≡ some row
    pub live : now < row.expires_at
    pub keyed : keys row.tenant_id ≡ some key
    pub key_size : length key ≡ key_length

  module _ (db : Db) (l : List Entry) (h : Implements db l) (session : Text) (now : ℕ)
      (ready : IsReady db session now) where
    session_keyed : session_key p keys db.sessions session ≡ some ready.key
    session_keyed = rw (ready.found, session_key) ready.keyed

    lock_ready : lock_session session now db ≡ ok ready.row
    unfolding lock_session
    lock_ready = rw ready.found (ground (arith, ready.live))

    found_entry :
        (token : Text) {e : Entry}
        → find? (has_token session token) l ≡ some e
        → e.session ≡ session
    found_entry token f =
        (same_text_iff _ _).0 (and_left _ _ (find?-passes (has_token session token) l f))

    search_token :
        (token : Text)
        → Found p keys db.sessions
            (find? (is_token session token) db.tokens)
            (find? (λ i. same_text i.session_id session && same_text i.token token) db.token_index)
            (find? (has_token session token) l)
    search_token token =
        find?-Represents p keys db.sessions _ _ _
          (λ r i e w. (
            token_agrees p keys db.sessions session token r i e w,
            rw (w.index_session, w.index_token),
          ))
          db.tokens db.token_index l h.rows

    decrypts :
        (token : Text) (r : TokenRow) (i : IndexRow) (e : Entry)
        → find? (has_token session token) l ≡ some e
        → Row p keys db.sessions r i e
        → (decrypt p r.cleartext_encrypted ready.key none ≡ ok (p.encode e.cleartext))
          × (p.decode (p.encode e.cleartext) ≡ e.cleartext)
    decrypts token r i e f w =
        let same : w.key ≡ ready.key =
          same_key p keys db.sessions _ _ w.keyed session_keyed (found_entry token f) in
        (rw (← same) w.sealed, p.decode-encode e.cleartext w.readable)

    -- Of every token of the session `resolve` gives the cleartext that the ledger has, and `null`
    -- of every other text.
    pub resolve_lem :
        (token : Text) → resolve p keys session token db ≡ ok (cleartext_of session token l)
    unfolding resolve
    resolve_lem token =
        rw (ready.found, resolve)
          (rw ready.keyed (elim (search_token token) [
            | inl (no_row, _, no_entry) ↦ rw (no_row, no_entry, cleartext_of) refl
            | inr (r, i, e, row, _, entry, w) ↦
                let (opened, read) = decrypts token r i e entry w in
                rw (row, entry, cleartext_of) (rw (opened, read))
          ]))

    module _ (nonce entity cleartext : Text) (fresh_nonce : length nonce ≡ nonce_length)
        (readable : p.well_formed cleartext ≡ true) where
      hash : Text
      hash = token_dedupe_hash p ready.key session cleartext

      search_cleartext :
          Found p keys db.sessions
            (find? (λ r. same_text r.session_id session && same_text r.hash hash) db.tokens)
            (find? (is_indexed session hash) db.token_index)
            (find? (has_cleartext session cleartext) l)
      unfolding hash
      search_cleartext =
          find?-Represents p keys db.sessions _ _ _
            (λ r i e w.
              let agree =
                hash_agrees p keys free db.sessions session cleartext ready.key session_keyed
                  readable r i e w in
              let columns : (same_text r.session_id session && same_text r.hash hash)
                  ≡ is_indexed session hash i =
                rw (w.row_session, w.row_hash, w.index_session, w.index_hash) refl in
              (columns ∙ agree, agree))
            db.tokens db.token_index l h.rows

      token_new : any (is_token session (next_token session entity l)) db.tokens ≡ false
      token_new = elim (search_token (next_token session entity l)) [
        | inl (no_row, _, _) ↦ find?-none-any _ db.tokens no_row
        | inr (r, i, e, _, _, entry, _) ↦ cc (entry, next_token_fresh session entity l h.ledger)
      ]

      new_row : Text → TokenRow
      new_row ciphertext = record {
        session_id = session;
        token = next_token session entity l;
        entity_type = entity;
        cleartext_encrypted = ciphertext;
        hash = hash;
      }

      new_index : IndexRow
      new_index = record { session_id = session; hash = hash; token = next_token session entity l }

      minted : Text → Db
      minted ciphertext = record db {
        tokens = new_row ciphertext ∷ db.tokens;
        token_index = new_index ∷ db.token_index;
      }

      mint_lem :
          (ciphertext : Text)
          → encrypt p nonce (p.encode cleartext) ready.key none ≡ ok ciphertext
          → find? (is_indexed session hash) db.token_index ≡ none
          → mint p keys nonce ready.key hash session entity cleartext db
            ≡ ok (record { token = next_token session entity l; reused = false }, minted ciphertext)
      unfolding mint insert_token insert_index minted new_row new_index
      mint_lem ciphertext sealed absent =
          let number =
            count-Represents p keys db.sessions session entity db.tokens db.token_index l h.rows in
          rw (number, sealed, token_new, find?-none-any _ db.token_index absent) refl

      allocate_hit :
          (i : IndexRow)
          → find? (is_indexed session hash) db.token_index ≡ some i
          → allocate p keys nonce now session entity cleartext db
            ≡ ok (record { token = i.token; reused = true }, db)
      unfolding allocate hash
      allocate_hit i q = rw (lock_ready, allocate) (rw ready.keyed (rw (q, ◌>>=◌)))

      allocate_miss :
          find? (is_indexed session hash) db.token_index ≡ none
          → allocate p keys nonce now session entity cleartext db
            ≡ mint p keys nonce ready.key hash session entity cleartext db
      unfolding allocate hash
      allocate_miss q = rw (lock_ready, allocate) (rw ready.keyed (rw (q, ◌>>=◌)))

      new_Row :
          (ciphertext : Text)
          → decrypt p ciphertext ready.key none ≡ ok (p.encode cleartext)
          → Row p keys db.sessions
              (new_row ciphertext)
              new_index
              (new_entry session entity cleartext l)
      unfolding new_row new_index hash
      new_Row ciphertext opens = record {
        key = ready.key;
        keyed = session_keyed;
        row_session = refl;
        row_token = refl;
        row_entity = refl;
        row_hash = refl;
        sealed = opens;
        index_session = refl;
        index_token = refl;
        index_hash = refl;
        readable = readable;
      }

      -- Of a text that the ledger has, the old token is returned, and the tables stay.
      pub allocate_known :
          {e : Entry}
          → find? (has_cleartext session cleartext) l ≡ some e
          → allocate p keys nonce now session entity cleartext db
            ≡ ok (record { token = e.token; reused = true }, db)
      allocate_known {e} known = elim search_cleartext [
        | inl (_, _, new) ↦ cc (known, new)
        | inr (r, i, e', _, index, entry, w) ↦
            let same : e' ≡ e = cc (known, entry) in
            allocate_hit i index
            ∙ ap (λ t. ok (record { token = t; reused = true }, db))
                (w.index_token ∙ ap (λ (x : Entry). x.token) same)
      ]

      -- What `allocate` returns, and the tables that it leaves.
      abbrev pub Carries : List Entry → Text → Bool → Type 0
      Carries l' token reused =
          (db' : Db) × (allocate p keys nonce now session entity cleartext db
            ≡ ok (record { token = token; reused = reused }, db'))
          × Implements db' l'
          × (db'.sessions ≡ db.sessions)

      Carries-new :
          find? (is_indexed session hash) db.token_index ≡ none
          → find? (has_cleartext session cleartext) l ≡ none
          → Carries (new_entry session entity cleartext l ∷ l) (next_token session entity l) false
      unfolding minted
      Carries-new absent new =
          let (ciphertext, sealed, opens) =
            decrypt-encrypt p nonce (p.encode cleartext) ready.key none ready.key_size
              fresh_nonce in
          (
            minted ciphertext,
            allocate_miss absent ∙ mint_lem ciphertext sealed absent,
            record { ledger = (refl, new, h.ledger); rows = (new_Row ciphertext opens, h.rows) },
            refl,
          )

      -- Of tables that stand for a ledger, in a live session whose tenant has a 32-byte key,
      -- `allocate` of a well-formed text returns the token that the ledger assigns, tells whether
      -- it is an old one, leaves tables that stand for the ledger's next state, and does not touch
      -- the sessions.
      pub allocate_lem :
          Carries
            (assign session entity cleartext l).1
            (assign session entity cleartext l).0
            (any (has_cleartext session cleartext) l)
      allocate_lem = elim search_cleartext [
        | inl (_, absent, new) ↦
            rw (assign_new session entity cleartext l new, find?-none-any _ l new)
              (Carries-new absent new)
        | inr (r, i, e, _, _, entry, _) ↦
            rw (assign_old session entity cleartext l entry, find?-some-any _ l entry)
              (db, allocate_known entry, h, refl)
      ]

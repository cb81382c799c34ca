-- ===== src/Vault/Tokens/Lifecycle.antt =====
-- Every state of the tables that the operations of `SessionManager` and `TokenVault` reach from
-- empty tables stands for a ledger.
use vibe_shield.Prelude.{
  ℕ, ◌+◌, ◌*◌, ◌<◌, ◌≡◌, refl, subst, ◌⊎◌, inl, inr, Bool, true, not, List, [], Option, none, some,
  Text, same_text, same_text_iff, length, select, find?, update, leb, ok, arith, Bool-cases,
  Option-cases, err,
}
use vibe_shield.Vault.Crypto.{Platform, IsCollisionFree, key_length, nonce_length}
use vibe_shield.Vault.Rows.{Session, Db, has_id}
use vibe_shield.Vault.Sessions.{
  CreateSession, create, touch, delete, delete_where, is_deleted, is_past, purge_expired,
}
use vibe_shield.Vault.Tokens.Ledger.{Entry, assign}
use vibe_shield.Vault.Tokens.Refinement.{session_key}
use vibe_shield.Vault.Tokens.Cascade.{
  IsLedger-select, Represents-moves, Represents-select, find?-delete, session_key-touch,
}
use vibe_shield.Vault.Tokens.Laws.{Implements, IsReady}
use vibe_shield.Vault.Tokens.Promises.{allocate-Outcome}
use vibe_shield.Vault.Tokens.{
  VaultError, session_missing, session_expired, key_unavailable, Allocated, lock_session, allocate,
}

module _ (p : Platform) (keys : Text → Option Text) (free : IsCollisionFree p) where
  create-Implements :
      (input : CreateSession) (id : Text) (now : ℕ) (db : Db) (l : List Entry)
      → find? (has_id id) db.sessions ≡ none
      → Implements p keys free db l
      → Implements p keys free (create input id now db).1 l
  unfolding create
  create-Implements input id now db l new h = record {
    ledger = h.ledger;
    rows =
        Represents-moves p keys _ _
          (λ s k keyed. elim (Bool-cases (same_text id s)) [
            | inl here ↦
                let same : id ≡ s = (same_text_iff _ _).0 here in
                let missing : find? (has_id s) db.sessions ≡ none = rw same at new in
                cc (
                  keyed,
                  (let e : session_key p keys db.sessions s ≡ none = rw (missing, session_key) in
                      e),
                )
            | inr there ↦ rw (there, session_key) refl
          ])
          db.tokens db.token_index l h.rows;
  }

  delete-Implements :
      (gone : Session → Bool) (db : Db) (l : List Entry)
      → Implements p keys free db l
      → Implements p keys free
          (delete_where gone db)
          (select (λ e. not (is_deleted gone db.sessions e.session)) l)
  unfolding delete_where
  delete-Implements gone db l h = record {
    ledger = IsLedger-select (λ s. not (is_deleted gone db.sessions s)) l h.ledger;
    rows =
        Represents-select p keys _ _ (λ s. not (is_deleted gone db.sessions s))
          (λ s kept. rw (find?-delete gone s db.sessions (ground (arith, kept)), session_key) refl)
          db.tokens db.token_index l h.rows;
  }

  touch-Implements :
      (id : Text) (ttl now : ℕ) (db db' : Db) (row : Session) (l : List Entry)
      → touch id ttl now db ≡ ok (row, db')
      → Implements p keys free db l
      → Implements p keys free db' l
  unfolding touch
  touch-Implements id ttl now db db' row l done h =
      let expiry = now + ttl * 60000 in
      let sessions' =
        update (has_id id) (λ (x : Session). record x { expires_at = expiry }) db.sessions in
      let same : record db { sessions = sessions' } ≡ db' = ground (arith, done) in
      subst (λ d. Implements p keys free d l) same
        (record {
          ledger = h.ledger;
          rows =
              Represents-moves p keys _ _
                (λ s k keyed. session_key-touch p keys id s expiry db.sessions) db.tokens
                db.token_index l h.rows;
        })

  allocate_unlocked :
      (nonce session : Text) (now : ℕ) (entity cleartext : Text) (db : Db) {e : VaultError}
      → lock_session session now db ≡ err e
      → allocate p keys nonce now session entity cleartext db ≡ err e
  unfolding allocate
  allocate_unlocked nonce session now entity cleartext db q = rw (q, allocate)

  allocate_keyless :
      (nonce session : Text) (now : ℕ) (entity cleartext : Text) (db : Db) {row : Session}
      → lock_session session now db ≡ ok row
      → keys row.tenant_id ≡ none
      → allocate p keys nonce now session entity cleartext db ≡ err key_unavailable
  unfolding allocate
  allocate_keyless nonce session now entity cleartext db q k = rw (q, allocate) (rw k)

  -- The lock fails with `session_missing` or `session_expired`, or finds a live session.
  lock_cases :
      (session : Text) (now : ℕ) (db : Db)
      → ((e : VaultError) × (lock_session session now db ≡ err e))
        ⊎ ((row : Session) × (lock_session session now db ≡ ok row)
            × (find? (has_id session) db.sessions ≡ some row)
            × (now < row.expires_at))
  unfolding lock_session
  lock_cases session now db = elim (Option-cases (find? (has_id session) db.sessions)) [
    | inl missing ↦ inl (session_missing, rw (missing, lock_session))
    | inr (row, found) ↦ elim (Bool-cases (leb row.expires_at now)) [
      | inl expired ↦ inl (session_expired, rw (found, lock_session) (rw expired))
      | inr live ↦ inr (row, rw (found, lock_session) (rw live), found, ground (arith, live))
    ]
  ]

  -- A call that succeeds found a live session and a key.
  allocate-IsReady :
      (nonce session : Text) (now : ℕ) (entity cleartext : Text) (db db' : Db) (a : Allocated)
      → ((tenant key : Text) → keys tenant ≡ some key → length key ≡ key_length)
      → allocate p keys nonce now session entity cleartext db ≡ ok (a, db')
      → IsReady p keys free db session now
  allocate-IsReady nonce session now entity cleartext db db' a sizes done =
      elim (lock_cases session now db) [
        | inl (e, q) ↦ cc (done, allocate_unlocked nonce session now entity cleartext db q)
        | inr (row, q, found, live) ↦ elim (Option-cases (keys row.tenant_id)) [
          | inl no_key ↦ cc (done, allocate_keyless nonce session now entity cleartext db q no_key)
          | inr (key, keyed) ↦ record {
            row = row;
            key = key;
            found = found;
            live = live;
            keyed = keyed;
            key_size = sizes row.tenant_id key keyed;
          }
        ]
      ]

  -- One call of `SessionManager` or `TokenVault`. A uuid is new where it is generated, and a nonce
  -- has its size.
  pub data Step (db : Db) : Db → Type 0 where
    created :
        (input : CreateSession) (id : Text) (now : ℕ)
        → find? (has_id id) db.sessions ≡ none
        → Step db (create input id now db).1
    touched :
        (id : Text) (ttl now : ℕ) (row : Session) {db' : Db}
        → touch id ttl now db ≡ ok (row, db')
        → Step db db'
    deleted : (id : Text) → Step db (delete id db)
    purged : (now : ℕ) → Step db (purge_expired now db).1
    allocated :
        (nonce session : Text) (now : ℕ) (entity cleartext : Text) (a : Allocated) {db' : Db}
        → length nonce ≡ nonce_length
        → p.well_formed cleartext ≡ true
        → allocate p keys nonce now session entity cleartext db ≡ ok (a, db')
        → Step db db'

  pub data Reaches : Db → Type 0 where
    start : Reaches (record { sessions = []; tokens = []; token_index = [] })
    next : {db db' : Db} → Reaches db → Step db db' → Reaches db'

  module _ (sizes : (tenant key : Text) → keys tenant ≡ some key → length key ≡ key_length) where
    Step-Implements :
        {db db' : Db} (l : List Entry)
        → Implements p keys free db l
        → Step db db'
        → (l' : List Entry) × Implements p keys free db' l'
    unfolding delete purge_expired
    Step-Implements {db} l h (created input id now new) =
        (l, create-Implements input id now db l new h)
    Step-Implements {db} {db'} l h (touched id ttl now row done) =
        (l, touch-Implements id ttl now db db' row l done h)
    Step-Implements {db} l h (deleted id) = (
      select (λ e. not (is_deleted (has_id id) db.sessions e.session)) l,
      delete-Implements (has_id id) db l h,
    )
    Step-Implements {db} l h (purged now) = (
      select (λ e. not (is_deleted (is_past now) db.sessions e.session)) l,
      delete-Implements (is_past now) db l h,
    )
    Step-Implements {db} {db'} l h
          (allocated nonce session now entity cleartext a fresh readable done) =
        (
          (assign session entity cleartext l).1,
          (allocate-Outcome p keys free db l h nonce session now entity cleartext
              (allocate-IsReady nonce session now entity cleartext db db' a sizes done) fresh
              readable a db' done).implemented,
        )

    -- Where tenants' keys have 32 bytes, the tables that any sequence of calls of the session
    -- manager and the token vault leaves, for texts that are well formed, stand for a ledger of
    -- tokens.
    pub Reaches-Implements : {db : Db} → Reaches db → (l : List Entry) × Implements p keys free db l
    Reaches-Implements start = ([], record { ledger = tt; rows = tt })
    Reaches-Implements (next r s) = let (l, h) = Reaches-Implements r in Step-Implements l h s

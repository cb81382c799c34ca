-- ===== src/Vault/Tokens.antt =====
-- packages/schema/src/vault/token-vault.ts, `TokenVault`. A transaction that throws is rolled back,
-- so an error carries no new tables. The random nonce, the current time and the tenants' keys are
-- arguments; the primary keys of the two token tables refuse a row that is there already.
pub mod Ledger
pub mod Refinement
pub mod Laws
pub mod Promises
pub mod Cascade
pub mod Lifecycle
use vibe_shield.Prelude.{
  ℕ, suc, Bool, true, false, ◌&&◌, not, List, [], ◌∷◌, Option, none, some, Text, same_text, leb,
  length, select, find?, any, if◌then◌else◌, Result, ok, err, ◌>>=◌, ◌>>◌, or_throw, require,
  map_error,
}
use vibe_shield.Token.{format_token}
use vibe_shield.Vault.Crypto.{Platform, CryptoError, encrypt, decrypt, token_dedupe_hash}
use vibe_shield.Vault.Rows.{Session, TokenRow, IndexRow, Db, has_id, is_token, is_typed, is_indexed}

pub data VaultError : Type 0 where
  session_missing session_expired : VaultError
  key_unavailable : VaultError
  crypto : CryptoError → VaultError
  unique_violation : VaultError

pub record Allocated : Type 0 where
  pub token : Text
  pub reused : Bool

-- `lockSession`
unfoldable pub lock_session : Text → ℕ → Db → Result VaultError Session
lock_session id now db = do
  row ← or_throw (find? (has_id id) db.sessions) session_missing
  require (not (leb row.expires_at now)) session_expired
  ok row

unfoldable pub insert_token : TokenRow → List TokenRow → Result VaultError (List TokenRow)
insert_token r rows =
    if any (is_token r.session_id r.token) rows then err unique_violation else ok (r ∷ rows)

unfoldable pub insert_index : IndexRow → List IndexRow → Result VaultError (List IndexRow)
insert_index r rows =
    if any (is_indexed r.session_id r.hash) rows then err unique_violation else ok (r ∷ rows)

module _ (p : Platform) (keys : Text → Option Text) where
  -- Steps 5 and 6 of the header of the file: the next number, the ciphertext and the two rows.
  unfoldable pub mint :
      Text → Text → Text → Text → Text → Text → Db → Result VaultError (Allocated × Db)
  mint nonce dek hash session_id entity_type cleartext db = do
    let n = suc (length (select (is_typed session_id entity_type) db.tokens))
    let token = format_token entity_type n
    ciphertext ← map_error crypto (encrypt p nonce (p.encode cleartext) dek none)
    tokens ←
        insert_token
          (record {
            session_id = session_id;
            token = token;
            entity_type = entity_type;
            cleartext_encrypted = ciphertext;
            hash = hash;
          })
          db.tokens
    token_index ←
        insert_index (record { session_id = session_id; hash = hash; token = token }) db.token_index
    ok (
      record { token = token; reused = false },
      record db { tokens = tokens; token_index = token_index },
    )

  unfoldable pub allocate : Text → ℕ → Text → Text → Text → Db → Result VaultError (Allocated × Db)
  allocate nonce now session_id entity_type cleartext db = do
    session ← lock_session session_id now db
    dek ← or_throw (keys session.tenant_id) key_unavailable
    let hash = token_dedupe_hash p dek session_id cleartext
    elim (find? (is_indexed session_id hash) db.token_index) [
      | some existing ↦ ok (record { token = existing.token; reused = true }, db)
      | none ↦ mint nonce dek hash session_id entity_type cleartext db
    ]

  -- `null` where the session or the token is unknown.
  unfoldable pub resolve : Text → Text → Db → Result VaultError (Option Text)
  resolve session_id token db = elim (find? (has_id session_id) db.sessions) [
    | none ↦ ok none
    | some session ↦ do
      dek ← or_throw (keys session.tenant_id) key_unavailable
      elim (find? (is_token session_id token) db.tokens) [
        | none ↦ ok none
        | some row ↦ do
          plaintext ← map_error crypto (decrypt p row.cleartext_encrypted dek none)
          ok (some (p.decode plaintext))
      ]
  ]

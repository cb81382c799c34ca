-- ===== src/Vault/ApplianceSecrets.antt =====
-- packages/schema/src/vault/appliance-secret-store.ts, `ApplianceSecretStore`, and its table of one
-- row (packages/schema/src/schema/appliance-settings.ts), `none` where the row is missing. SHA-256 as
-- hexadecimal digits, the nonce and the clock are arguments; that a buffer is overwritten at the end
-- is left out.
use vibe_shield.Prelude.{
  ℕ, ◌≡◌, refl, Bool, true, false, [], ◌∷◌, Text, codes, Option, none, some, Result, ok, err, ◌>>=◌,
  length, take, or_throw, map_error,
}
use vibe_shield.Vault.Crypto.{
  Platform, CryptoError, key_length, nonce_length, encrypt, decrypt, decrypt-encrypt,
}

pub record ApplianceSettings : Type 0 where
  pub anthropic_api_key_ciphertext : Option Text
  pub anthropic_api_key_fingerprint : Option Text
  pub anthropic_api_key_set_at : Option ℕ
  pub anthropic_api_key_set_by : Option Text
  pub updated_at : ℕ

pub record AnthropicKey : Type 0 where
  pub plaintext : Text
  pub fingerprint : Text
  pub set_at : ℕ
  pub set_by : Text

pub record AnthropicKeyStatus : Type 0 where
  pub present : Bool
  pub fingerprint : Option Text
  pub set_at : Option ℕ
  pub set_by : Option Text
  pub updated_at : ℕ

pub data SecretError : Type 0 where
  settings_missing empty_key : SecretError
  crypto : CryptoError → SecretError

abbrev pub is_present : Option Text → Bool
is_present none = false
is_present (some t) = true

abbrev pub or_empty : Option Text → Text
or_empty none = []
or_empty (some t) = t

-- The row is updated where it is there.
abbrev pub update_row :
    (ApplianceSettings → ApplianceSettings) → Option ApplianceSettings → Option ApplianceSettings
update_row f none = none
update_row f (some row) = some (f row)

unfoldable pub get_status : Option ApplianceSettings → Result SecretError AnthropicKeyStatus
get_status table = do
  row ← or_throw table settings_missing
  ok (record {
    present = is_present row.anthropic_api_key_ciphertext;
    fingerprint = row.anthropic_api_key_fingerprint;
    set_at = row.anthropic_api_key_set_at;
    set_by = row.anthropic_api_key_set_by;
    updated_at = row.updated_at;
  })

unfoldable pub clear_anthropic_key : Text → ℕ → Option ApplianceSettings → Option ApplianceSettings
clear_anthropic_key actor now = update_row (λ row. record {
  anthropic_api_key_ciphertext = none;
  anthropic_api_key_fingerprint = none;
  anthropic_api_key_set_at = none;
  anthropic_api_key_set_by = some actor;
  updated_at = now;
})

abbrev pub fingerprint_of : (Text → Text) → Text → Text
fingerprint_of sha256_hex plaintext = take 16 (sha256_hex plaintext)

module _ (p : Platform) (sha256_hex : Text → Text) (kek : Text) where
  abbrev pub appliance_aad : Text
  appliance_aad = p.encode (codes "vs:appliance:anthropic_key")

  -- The columns that are set together.
  abbrev pub decrypted :
      Option Text → Option Text → Option ℕ → Option Text → Result SecretError (Option AnthropicKey)
  decrypted (some ciphertext) (some fingerprint) (some set_at) set_by = do
    plaintext ← map_error crypto (decrypt p ciphertext kek (some appliance_aad))
    ok (
        some (record {
          plaintext = p.decode plaintext;
          fingerprint = fingerprint;
          set_at = set_at;
          set_by = or_empty set_by;
        }))
  decrypted (some ciphertext) (some fingerprint) none set_by = ok none
  decrypted (some ciphertext) none set_at set_by = ok none
  decrypted none fingerprint set_at set_by = ok none

  unfoldable pub get_anthropic_key :
      Option ApplianceSettings → Result SecretError (Option AnthropicKey)
  get_anthropic_key table = do
    row ← or_throw table settings_missing
    decrypted row.anthropic_api_key_ciphertext row.anthropic_api_key_fingerprint
        row.anthropic_api_key_set_at row.anthropic_api_key_set_by

  -- The fingerprint, and the table that is left.
  unfoldable pub set_anthropic_key :
      Text
      → Text
      → Text
      → ℕ
      → Option ApplianceSettings
      → Result SecretError (Text × Option ApplianceSettings)
  set_anthropic_key nonce [] actor now table = err empty_key
  set_anthropic_key nonce (c ∷ s) actor now table = do
    ciphertext ← map_error crypto (encrypt p nonce (p.encode (c ∷ s)) kek (some appliance_aad))
    ok (
      fingerprint_of sha256_hex (c ∷ s),
      update_row
          (λ row. record {
            anthropic_api_key_ciphertext = some ciphertext;
            anthropic_api_key_fingerprint = some (fingerprint_of sha256_hex (c ∷ s));
            anthropic_api_key_set_at = some now;
            anthropic_api_key_set_by = some actor;
            updated_at = now;
          })
          table,
    )

  abbrev pub key_of : Result SecretError (Option AnthropicKey) → Result SecretError (Option Text)
  key_of (ok (some key)) = ok (some key.plaintext)
  key_of (ok none) = ok none
  key_of (err e) = err e

  -- A key that is set, not empty and well formed, is read back until it is cleared, and no key from
  -- then on, where the row is there and the appliance's key has 32 bytes.
  pub get_anthropic_key-set_anthropic_key :
      (nonce s actor actor' : Text) (c now later : ℕ) (row : ApplianceSettings)
      → length kek ≡ key_length
      → length nonce ≡ nonce_length
      → p.well_formed (c ∷ s) ≡ true
      → (table : Option ApplianceSettings) × (set_anthropic_key nonce (c ∷ s) actor now (some row)
          ≡ ok (fingerprint_of sha256_hex (c ∷ s), table))
        × (key_of (get_anthropic_key table) ≡ ok (some (c ∷ s)))
        × (key_of (get_anthropic_key (clear_anthropic_key actor' later table)) ≡ ok none)
  unfolding get_anthropic_key set_anthropic_key clear_anthropic_key
  get_anthropic_key-set_anthropic_key nonce s actor actor' c now later row hk hn formed =
      let (ciphertext, made, opened) =
        decrypt-encrypt p nonce (p.encode (c ∷ s)) kek (some appliance_aad) hk hn in
      (
        some (record {
          anthropic_api_key_ciphertext = some ciphertext;
          anthropic_api_key_fingerprint = some (fingerprint_of sha256_hex (c ∷ s));
          anthropic_api_key_set_at = some now;
          anthropic_api_key_set_by = some actor;
          updated_at = now;
        }),
        rw made refl,
        rw opened (rw (p.decode-encode (c ∷ s) formed) refl),
        refl,
      )

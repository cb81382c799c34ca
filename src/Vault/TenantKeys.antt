-- ===== src/Vault/TenantKeys.antt =====
-- packages/schema/src/crypto/dek.ts: the keys of the tenants, wrapped under the appliance's key. The
-- random key and nonces are arguments; that a buffer is overwritten at the end is left out.
use vibe_shield.Prelude.{◌≡◌, refl, Text, codes, ◌++◌, some, Result, ok, ◌>>=◌, length}
use vibe_shield.Vault.Crypto.{
  Platform, CryptoError, key_length, nonce_length, encrypt, decrypt, decrypt-encrypt,
}

module _ (p : Platform) where
  abbrev pub aad_for : Text → Text
  aad_for tenant_id = p.encode (codes "vs:tenant:" ++ tenant_id)

  -- The wrapped key, and the key.
  unfoldable pub create_wrapped_dek : Text → Text → Text → Text → Result CryptoError (Text × Text)
  create_wrapped_dek dek nonce kek tenant_id = do
    wrapped_dek ← encrypt p nonce dek kek (some (aad_for tenant_id))
    ok (wrapped_dek, dek)

  unfoldable pub unwrap_dek : Text → Text → Text → Result CryptoError Text
  unwrap_dek wrapped_dek kek tenant_id = decrypt p wrapped_dek kek (some (aad_for tenant_id))

  unfoldable pub rewrap_dek : Text → Text → Text → Text → Text → Result CryptoError Text
  rewrap_dek nonce wrapped_dek old_kek new_kek tenant_id = do
    dek ← unwrap_dek wrapped_dek old_kek tenant_id
    encrypt p nonce dek new_kek (some (aad_for tenant_id))

  -- A wrapped key unwraps to itself for its tenant.
  pub unwrap_dek-create_wrapped_dek :
      (dek nonce kek tenant_id : Text)
      → length kek ≡ key_length
      → length nonce ≡ nonce_length
      → (wrapped_dek : Text) × (create_wrapped_dek dek nonce kek tenant_id ≡ ok (wrapped_dek, dek))
        × (unwrap_dek wrapped_dek kek tenant_id ≡ ok dek)
  unfolding create_wrapped_dek unwrap_dek
  unwrap_dek-create_wrapped_dek dek nonce kek tenant_id hk hn =
      let (wrapped_dek, made, opened) =
        decrypt-encrypt p nonce dek kek (some (aad_for tenant_id)) hk hn in
      (wrapped_dek, rw made refl, opened)

  -- A rotation of the appliance's key keeps the tenant's: where the old wrap opens under the old
  -- key, rewrapping succeeds, and what it gives opens to the same key under the new one.
  pub unwrap_dek-rewrap_dek :
      (dek nonce wrapped_dek old_kek new_kek tenant_id : Text)
      → length new_kek ≡ key_length
      → length nonce ≡ nonce_length
      → unwrap_dek wrapped_dek old_kek tenant_id ≡ ok dek
      → (rewrapped : Text) × (rewrap_dek nonce wrapped_dek old_kek new_kek tenant_id ≡ ok rewrapped)
        × (unwrap_dek rewrapped new_kek tenant_id ≡ ok dek)
  unfolding rewrap_dek
  unwrap_dek-rewrap_dek dek nonce wrapped_dek old_kek new_kek tenant_id hk hn opens =
      let (rewrapped, made, opened) =
        decrypt-encrypt p nonce dek new_kek (some (aad_for tenant_id)) hk hn in
      (rewrapped, rw opens made, unfold unwrap_dek in opened)

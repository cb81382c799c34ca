-- ===== src/Vault/Crypto.antt =====
-- packages/schema/src/crypto/aead.ts and packages/schema/src/vault/hash.ts. What `node:crypto` and
-- `Buffer` compute is a parameter, `Platform`, with the laws that its documentation gives; a buffer
-- is its list of bytes, and the random nonce is an argument.
use vibe_shield.Prelude.{
  ℕ, ◌+◌, ◌-◌, ◌≡◌, Bool, true, false, ◌++◌, Option, some, Text, codes, length, take, drop, ltb,
  ◌==◌, not, Result, ok, ◌>>◌, require, or_throw, arith, length-append, append_assoc,
  take-append_length, drop-append_length, ==_iff,
}

pub record Platform : Type 0 where
  -- createHmac('sha256', key).update(message).digest()
  pub hmac : Text → Text → Text
  -- aes-256-gcm under a key, a nonce and optional associated data: the ciphertext and the tag.
  pub seal : Text → Text → Option Text → Text → Text × Text
  -- The inverse; `none` where the tag does not authenticate.
  pub unseal : Text → Text → Option Text → Text → Text → Option Text
  -- Buffer.from(s, 'utf8') and toString('utf8'); a text is well formed if no surrogate is alone.
  pub encode : Text → Text
  pub decode : Text → Text
  pub well_formed : Text → Bool
  pub unseal-seal :
      (key nonce : Text) (aad : Option Text) (plaintext : Text)
      → let (ciphertext, tag) = seal key nonce aad plaintext in
        unseal key nonce aad ciphertext tag ≡ some plaintext
  pub tag_length :
      (key nonce : Text) (aad : Option Text) (plaintext : Text)
      → length (seal key nonce aad plaintext).1 ≡ 16
  pub decode-encode : (s : Text) → well_formed s ≡ true → decode (encode s) ≡ s

-- No two messages have one HMAC under a key: the ideal of a collision-resistant hash.
pub record IsCollisionFree (p : Platform) : Type 0 where
  pub apart : (key m m' : Text) → p.hmac key m ≡ p.hmac key m' → m ≡ m'

pub data CryptoError : Type 0 where
  bad_key too_short authentication_failed : CryptoError

abbrev pub key_length : ℕ
key_length = 32

abbrev pub nonce_length : ℕ
nonce_length = 12

abbrev pub tag_size : ℕ
tag_size = 16

-- A blob of three parts, of which the outer two have known lengths.
middle_cut :
    (a b c : Text) (cut : ℕ)
    → cut + length c ≡ length (a ++ (b ++ c))
    → (take cut (a ++ (b ++ c)) ≡ a ++ b) × (drop cut (a ++ (b ++ c)) ≡ c)
middle_cut a b c cut h =
    let same : cut ≡ length (a ++ b) =
      omega (arith, length-append a b, length-append a (b ++ c), length-append b c) in
    rw (same, ← append_assoc a b c) (take-append_length (a ++ b) c, drop-append_length (a ++ b) c)

module _ (p : Platform) where
  pub assert_key_length : Text → Result CryptoError (Unit {0})
  assert_key_length key = require (length key == key_length) bad_key

  -- nonce || ciphertext || tag
  unfoldable pub encrypt : Text → Text → Text → Option Text → Result CryptoError Text
  unfolding assert_key_length
  encrypt nonce plaintext key aad = do
    assert_key_length key
    let sealed = p.seal key nonce aad plaintext
    ok (nonce ++ (sealed.0 ++ sealed.1))

  unfoldable pub decrypt : Text → Text → Option Text → Result CryptoError Text
  unfolding assert_key_length
  decrypt blob key aad = do
    assert_key_length key
    require (not (ltb (length blob) (nonce_length + tag_size))) too_short
    let nonce = take nonce_length blob
    let tag = drop (length blob - tag_size) blob
    let ciphertext = drop nonce_length (take (length blob - tag_size) blob)
    or_throw (p.unseal key nonce aad ciphertext tag) authentication_failed

  -- `tokenDedupeHash`
  unfoldable pub token_dedupe_hash : Text → Text → Text → Text
  token_dedupe_hash dek session cleartext =
      p.hmac dek (p.encode session ++ (codes ":vs:" ++ p.encode cleartext))

  -- What is encrypted under a key of 32 bytes and a nonce of 12 decrypts to itself under the key.
  pub decrypt-encrypt :
      (nonce plaintext key : Text) (aad : Option Text)
      → length key ≡ key_length
      → length nonce ≡ nonce_length
      → (blob : Text) × (encrypt nonce plaintext key aad ≡ ok blob)
        × (decrypt blob key aad ≡ ok plaintext)
  unfolding encrypt decrypt assert_key_length
  decrypt-encrypt nonce plaintext key aad hk hn =
      (nonce ++ (c ++ t), rw good_key, rw (good_key, long_enough) opened)
    where
      c : Text
      c = (p.seal key nonce aad plaintext).0

      t : Text
      t = (p.seal key nonce aad plaintext).1

      good_key : (length key == key_length) ≡ true
      good_key = (==_iff _ _).1 hk

      total : length (nonce ++ (c ++ t)) ≡ 12 + length c + 16
      total = omega (
        arith,
        length-append nonce (c ++ t),
        length-append c t,
        hn,
        p.tag_length key nonce aad plaintext,
      )

      long_enough : ltb (length (nonce ++ (c ++ t))) (nonce_length + tag_size) ≡ false
      long_enough = ground (arith, total)

      cut : ℕ
      cut = length (nonce ++ (c ++ t)) - tag_size

      halves : (take cut (nonce ++ (c ++ t)) ≡ nonce ++ c) × (drop cut (nonce ++ (c ++ t)) ≡ t)
      halves = middle_cut nonce c t cut (omega (arith, total, p.tag_length key nonce aad plaintext))

      front : take nonce_length (nonce ++ (c ++ t)) ≡ nonce
      front = rw (← hn) (take-append_length nonce (c ++ t))

      body : drop nonce_length (nonce ++ c) ≡ c
      body = rw (← hn) (drop-append_length nonce c)

      opened :
          or_throw
            (p.unseal key
              (take nonce_length (nonce ++ (c ++ t)))
              aad
              (drop nonce_length (take cut (nonce ++ (c ++ t))))
              (drop cut (nonce ++ (c ++ t))))
            authentication_failed
          ≡ ok plaintext
      opened = rw (front, halves.0, halves.1, body) (rw (p.unseal-seal key nonce aad plaintext))

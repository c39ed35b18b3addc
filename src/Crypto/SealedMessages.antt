-- ===== src/Crypto/SealedMessages.antt =====
-- The sealed tokens of src/spnego.rs over the AES profiles of src/crypto.rs.
use rskrb.Prelude.{ℕ, ◌<◌, ◌≡◌, ◌⊎◌, inl, inr, ◌++◌, none, some, length, arith}
use rskrb.Result.{ok, bind, bind-eq-ok}
use rskrb.Wire.{Bytes}
use rskrb.Keytab.{EncryptionKey}
use rskrb.Service.Messages.{
  KerberosEtype, sha1_aes128, sha1_aes256, sha2_aes128, sha2_aes256, from_etype_id,
}
use rskrb.Gss.Wrap.{WrapToken}
use rskrb.Gss.WrapRoundTrip.{Fits}
use rskrb.Gss.Sealed.{sealed_exchange, sealed_exchange_lem, sealed_text}
use rskrb.Crypto.{Algorithms}
use rskrb.Crypto.Cbc.{Inverts}
use rskrb.Crypto.Messages.{
  decrypt_message-encrypt_message_sha1, decrypt_message-encrypt_message_sha2,
}
use rskrb.Crypto.Etypes.{ciphers_of, encrypt_message_with_confounder, decrypt_message}
use rskrb.Crypto.Sha1.{usage_constant}
use rskrb.Crypto.Sha1 as Sha1
use rskrb.Crypto.Sha2 as Sha2

-- The four AES types.
abbrev pub AesEtype : Type 0
AesEtype = Sha1.AesSha1Etype ⊎ Sha2.AesSha2Etype

abbrev pub etype_of : AesEtype → KerberosEtype
etype_of (inl Sha1.aes128) = sha1_aes128
etype_of (inl Sha1.aes256) = sha1_aes256
etype_of (inr Sha2.aes128) = sha2_aes128
etype_of (inr Sha2.aes256) = sha2_aes256

module _ (algorithms : Algorithms) (usage : ℕ) where
  -- The protocol key has its size, the two keys are derived from it, and what is cut of the hash that
  -- the profile takes of a text has its size.
  abbrev pub IsKeyed : AesEtype → Bytes → Bytes → Bytes → Bytes → Type 0
  IsKeyed (inl etype) protocol_key encryption_key integrity_key text =
      (length protocol_key ≡ Sha1.key_len etype)
      × (Sha1.derive_key algorithms etype protocol_key (usage_constant usage 0xaa)
          ≡ ok encryption_key)
      × (Sha1.derive_key algorithms etype protocol_key (usage_constant usage 0x55)
          ≡ ok integrity_key)
      × (length (Sha1.hmac_sha1_96 algorithms integrity_key text) ≡ 12)
  IsKeyed (inr etype) protocol_key encryption_key integrity_key text =
      (length protocol_key ≡ Sha2.key_len etype)
      × (Sha2.derive_key algorithms etype protocol_key (usage_constant usage 0xaa)
          ≡ ok encryption_key)
      × (Sha2.derive_key algorithms etype protocol_key (usage_constant usage 0x55)
          ≡ ok integrity_key)
      × (length encryption_key ≡ Sha2.key_len etype)
      × ((bytes : Bytes)
          → length (Sha2.truncated_hmac algorithms etype integrity_key bytes) ≡ Sha2.hmac_len etype)

  opened_size :
      (etype : AesEtype) (key ciphertext message : Bytes)
      → decrypt_message algorithms (etype_of etype) key ciphertext usage ≡ ok message
      → 0 < length ciphertext
  unfolding decrypt_message Sha1.decrypt_message Sha2.decrypt_message
  opened_size (inl Sha1.aes128) key ciphertext message h = ground arith
  opened_size (inl Sha1.aes256) key ciphertext message h = ground arith
  opened_size (inr Sha2.aes128) key ciphertext message h = ground arith
  opened_size (inr Sha2.aes256) key ciphertext message h = ground arith

  -- The dispatch encrypts and decrypts with one profile.
  decrypt_message-encrypt_message :
      (etype : AesEtype) (protocol_key message confounder encryption_key integrity_key : Bytes)
      → Inverts (algorithms.encrypt_block encryption_key) (algorithms.decrypt_block encryption_key)
      → length confounder ≡ 16
      → IsKeyed etype protocol_key encryption_key integrity_key (confounder ++ message)
      → bind
          (encrypt_message_with_confounder algorithms
            (etype_of etype)
            protocol_key
            message
            usage
            confounder)
          (λ ciphertext. decrypt_message algorithms (etype_of etype) protocol_key ciphertext usage)
        ≡ ok message
  unfolding encrypt_message_with_confounder decrypt_message
  decrypt_message-encrypt_message (inl Sha1.aes128) protocol_key message confounder encryption_key
        integrity_key invertible random (size, derived, derived', code_size) =
      decrypt_message-encrypt_message_sha1 algorithms usage protocol_key message confounder
        encryption_key integrity_key invertible random Sha1.aes128 size derived derived' code_size
  decrypt_message-encrypt_message (inl Sha1.aes256) protocol_key message confounder encryption_key
        integrity_key invertible random (size, derived, derived', code_size) =
      decrypt_message-encrypt_message_sha1 algorithms usage protocol_key message confounder
        encryption_key integrity_key invertible random Sha1.aes256 size derived derived' code_size
  decrypt_message-encrypt_message (inr Sha2.aes128) protocol_key message confounder encryption_key
        integrity_key invertible random (size, derived, derived', size', code_size) =
      decrypt_message-encrypt_message_sha2 algorithms usage protocol_key message confounder
        encryption_key integrity_key invertible random Sha2.aes128 size derived derived' size'
        code_size
  decrypt_message-encrypt_message (inr Sha2.aes256) protocol_key message confounder encryption_key
        integrity_key invertible random (size, derived, derived', size', code_size) =
      decrypt_message-encrypt_message_sha2 algorithms usage protocol_key message confounder
        encryption_key integrity_key invertible random Sha2.aes256 size derived derived' size'
        code_size

  -- A payload sealed in a fresh wrap token with a key of any of the four AES types comes out of the bytes
  -- of the token on the other side. The token's fields fit their widths, the confounder has 16 bytes,
  -- the key has the size of its type, the two keys can be derived, the block cipher can be undone under
  -- the encryption key, and the hashes have their sizes when they are cut.
  pub sealed_exchange-ciphers_of :
      (etype : AesEtype) (key : EncryptionKey) (token : WrapToken)
      (payload confounder encryption_key integrity_key : Bytes)
      → Fits token
      → token.encrypted_body ≡ none
      → token.payload ≡ some payload
      → from_etype_id key.etype ≡ some (etype_of etype)
      → length confounder ≡ 16
      → Inverts (algorithms.encrypt_block encryption_key) (algorithms.decrypt_block encryption_key)
      → IsKeyed etype key.value encryption_key integrity_key
          (confounder ++ sealed_text token payload)
      → sealed_exchange (ciphers_of algorithms) key (etype_of etype) usage token confounder
        ≡ ok payload
  sealed_exchange-ciphers_of etype key token payload confounder encryption_key integrity_key fits
        fresh given known random invertible keyed =
      let text = sealed_text token payload in
      let (encrypted, closed, opened) =
        bind-eq-ok
          (encrypt_message_with_confounder algorithms (etype_of etype) key.value text usage
            confounder)
          (λ ciphertext. decrypt_message algorithms (etype_of etype) key.value ciphertext usage)
          (decrypt_message-encrypt_message etype key.value text confounder encryption_key
            integrity_key invertible random keyed) in
      sealed_exchange_lem (ciphers_of algorithms) key (etype_of etype) usage token payload
        confounder encrypted fits fresh given known closed opened
        (opened_size etype key.value encrypted text opened)

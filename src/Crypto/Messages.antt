-- ===== src/Crypto/Messages.antt =====
-- Messages of the AES profiles of src/crypto.rs, encrypted and decrypted.
use rskrb.Prelude.{
  ℕ, ◌+◌, ◌-◌, ◌≤◌, ◌≡◌, refl, true, false, ◌++◌, ◌==◌, ==_iff, ltb, length, take, drop, arith,
  length-append, take-append, drop-append,
}
use rskrb.Result.{ok, bind}
use rskrb.Wire.{Bytes}
use rskrb.Gss.Comparison.{constant_time_eq_iff}
use rskrb.Crypto.{Algorithms}
use rskrb.Crypto.Modes.{aes_cts_decrypt}
use rskrb.Crypto.Cbc.{Inverts, drop-drop_append}
use rskrb.Crypto.CtsRoundTrip.{encrypted-text}
use rskrb.Gss.Wrap.{zeros}
use rskrb.Crypto.DerivedKeys.{derive_key-IsKey}
use rskrb.Crypto.Sha1.{usage_constant}
use rskrb.Crypto.Sha1 as Sha1
use rskrb.Crypto.Sha2 as Sha2

decrypted_size :
    (algorithms : Algorithms) (key ciphertext plaintext : Bytes)
    → aes_cts_decrypt algorithms key ciphertext ≡ ok plaintext
    → 16 ≤ length ciphertext
unfolding aes_cts_decrypt
decrypted_size algorithms key ciphertext plaintext h = ground arith

-- A text and its code.
code-split :
    (text code : Bytes) (n : ℕ)
    → length code ≡ n
    → (take (length (text ++ code) - n) (text ++ code) ≡ text)
      × (drop (length (text ++ code) - n) (text ++ code) ≡ code)
code-split text code n e =
    let size : length (text ++ code) - n ≡ length text =
      omega (arith, length-append text code, e) in
    (rw (size, take-append text code) refl, rw (size, drop-append text code) refl)

module _ (algorithms : Algorithms) (usage : ℕ)
    (protocol_key message confounder encryption_key integrity_key : Bytes)
    (invertible : Inverts
      (algorithms.encrypt_block encryption_key)
      (algorithms.decrypt_block encryption_key))
    (random : length confounder ≡ 16) where
  abbrev plain : Bytes
  plain = confounder ++ message

  plain_size : 16 ≤ length plain
  plain_size = omega (arith, length-append confounder message, random)

  -- The two tests of the length of the plain text.
  short_plain : ltb (length plain) 16 ≡ false
  short_plain = ground (arith, plain_size)

  -- A message of any size is encrypted and decrypted to itself by the AES profiles with SHA-1. The
  -- protocol key and the confounder have their sizes, the two keys can be derived, the block cipher
  -- can be undone under the encryption key, and the hash of the text has 12 bytes when it is cut.
  pub decrypt_message-encrypt_message_sha1 :
      (etype : Sha1.AesSha1Etype)
      → length protocol_key ≡ Sha1.key_len etype
      → Sha1.derive_key algorithms etype protocol_key (usage_constant usage 0xaa)
        ≡ ok encryption_key
      → Sha1.derive_key algorithms etype protocol_key (usage_constant usage 0x55) ≡ ok integrity_key
      → length (Sha1.hmac_sha1_96 algorithms integrity_key plain) ≡ 12
      → bind
          (Sha1.encrypt_message_with_confounder algorithms etype protocol_key message usage
            confounder)
          (λ ciphertext. Sha1.decrypt_message algorithms etype protocol_key ciphertext usage)
        ≡ ok message
  unfolding Sha1.encrypt_message_with_confounder Sha1.decrypt_message Sha1.encrypt_data
      Sha1.decrypt_data
  decrypt_message-encrypt_message_sha1 etype size derived derived' code_size =
      let size' =
        derive_key-IsKey algorithms etype protocol_key (usage_constant usage 0xaa) encryption_key
          derived in
      let (iv, ciphertext, written, read) =
        encrypted-text algorithms encryption_key invertible plain plain_size in
      let code = Sha1.hmac_sha1_96 algorithms integrity_key plain in
      let fits : (length protocol_key == Sha1.key_len etype) ≡ true =
        (==_iff (length protocol_key) (Sha1.key_len etype)).1 size in
      let fits' : (length encryption_key == Sha1.key_len etype) ≡ true =
        (==_iff (length encryption_key) (Sha1.key_len etype)).1 size' in
      let long : ltb (length (ciphertext ++ code)) 28 ≡ false = ground (
        arith,
        length-append ciphertext code,
        decrypted_size algorithms encryption_key ciphertext plain read,
        code_size,
      ) in
      let (text, mac) = code-split ciphertext code 12 code_size in
      rw
        (
          fits,
          random,
          derived,
          fits',
          written,
          derived',
          long,
          text,
          mac,
          read,
          short_plain,
          (constant_time_eq_iff code code).1 refl,
          drop-drop_append 16 confounder message random,
        )
        refl

  -- A message of any size is encrypted and decrypted to itself by the AES profiles with SHA-2. The keys
  -- and the confounder have their sizes, the two keys can be derived, the block cipher can be undone
  -- under the encryption key, and the hash has its size when it is cut.
  pub decrypt_message-encrypt_message_sha2 :
      (etype : Sha2.AesSha2Etype)
      → length protocol_key ≡ Sha2.key_len etype
      → Sha2.derive_key algorithms etype protocol_key (usage_constant usage 0xaa)
        ≡ ok encryption_key
      → Sha2.derive_key algorithms etype protocol_key (usage_constant usage 0x55) ≡ ok integrity_key
      → length encryption_key ≡ Sha2.key_len etype
      → ((bytes : Bytes)
          → length (Sha2.truncated_hmac algorithms etype integrity_key bytes) ≡ Sha2.hmac_len etype)
      → bind
          (Sha2.encrypt_message_with_confounder algorithms etype protocol_key message usage
            confounder)
          (λ ciphertext. Sha2.decrypt_message algorithms etype protocol_key ciphertext usage)
        ≡ ok message
  unfolding Sha2.encrypt_message_with_confounder Sha2.decrypt_message Sha2.encrypt_data
      Sha2.decrypt_data Sha2.integrity_hash
  decrypt_message-encrypt_message_sha2 etype size derived derived' size' code_size =
      let (iv, ciphertext, written, read) =
        encrypted-text algorithms encryption_key invertible plain plain_size in
      let code = Sha2.truncated_hmac algorithms etype integrity_key (zeros 16 ++ ciphertext) in
      let n = Sha2.hmac_len etype in
      let fits : (length protocol_key == Sha2.key_len etype) ≡ true =
        (==_iff (length protocol_key) (Sha2.key_len etype)).1 size in
      let fits' : (length encryption_key == Sha2.key_len etype) ≡ true =
        (==_iff (length encryption_key) (Sha2.key_len etype)).1 size' in
      let exact : length code ≡ n = code_size (zeros 16 ++ ciphertext) in
      let long : ltb (length (ciphertext ++ code)) (n + 16) ≡ false = ground (
        arith,
        length-append ciphertext code,
        decrypted_size algorithms encryption_key ciphertext plain read,
        exact,
      ) in
      let (text, mac) = code-split ciphertext code n exact in
      rw
        (
          fits,
          random,
          derived,
          fits',
          written,
          derived',
          long,
          text,
          mac,
          read,
          short_plain,
          (constant_time_eq_iff code code).1 refl,
          drop-drop_append 16 confounder message random,
        )
        refl

-- ===== src/Crypto/Rc4.antt =====
-- `Rc4HmacEtype` of src/crypto.rs, except for the password, and what it decrypts after it encrypts.
-- `usage as u8 & 0x7f | 0x80` is written by division.
use rskrb.Prelude.{
  ℕ, zero, suc, ◌+◌, ◌/◌, ◌%◌, ◌≡◌, refl, Bool, false, not, ◌||◌, [], ◌∷◌, ◌++◌, some, ltb, ◌==◌,
  if◌then◌else◌, length, take, drop, arith, length-append,
}
use rskrb.Prelude.Text.{codes}
use rskrb.Result.{Result, ok, err, bind}
use rskrb.Wire.{Bytes, ok_or}
use rskrb.Gss.Wrap.{zeros}
use rskrb.Gss.Mic.{constant_time_eq}
use rskrb.Gss.Comparison.{constant_time_eq_iff}
use rskrb.Crypto.{
  Error, Algorithms, invalid_key_length, invalid_confounder_length, ciphertext_too_short,
  plaintext_too_short, integrity_check_failed,
}
use rskrb.Crypto.Cbc.{take-take_append, drop-drop_append}
use rskrb.Crypto.Sha1.{is_ok_and}

abbrev pub key_len : ℕ
key_len = 16

abbrev pub confounder_len : ℕ
confounder_len = 8

abbrev pub hmac_len : ℕ
hmac_len = 16

-- `b"signaturekey\0"`
abbrev pub rc4_hmac_signature_key : Bytes
rc4_hmac_signature_key = codes "signaturekey" ++ (0 ∷ [])

-- What is left of the array after the last byte is zero.
abbrev pub msg_type_loop : ℕ → ℕ → Bytes
msg_type_loop zero usage = []
msg_type_loop (suc count) usage =
    let rest = msg_type_loop count (usage / 128) in
    if ltb usage 0x80 then usage ∷ zeros count else (usage % 128 + 0x80) ∷ rest

unfoldable pub rc4_hmac_usage_to_ms_msg_type : ℕ → Bytes
rc4_hmac_usage_to_ms_msg_type usage =
    msg_type_loop 4 (if usage == 3 || usage == 9 then 8 else if usage == 23 then 13 else usage)

abbrev pub validate_key : Bytes → Result Error (Unit {0})
validate_key key =
    if not (length key == key_len) then err (invalid_key_length key_len (length key)) else ok tt

module _ (algorithms : Algorithms) where
  unfoldable pub rc4_hmac_crypt : Bytes → Bytes → Result Error Bytes
  rc4_hmac_crypt key input = ok_or (algorithms.rc4 key input) (invalid_key_length 16 (length key))

  unfoldable pub kerb_checksum_hmac_md5 : Bytes → Bytes → ℕ → Bytes
  unfolding rc4_hmac_usage_to_ms_msg_type
  kerb_checksum_hmac_md5 protocol_key bytes usage =
      algorithms.hmac_md5 (algorithms.hmac_md5 protocol_key rc4_hmac_signature_key)
        (algorithms.md5 (rc4_hmac_usage_to_ms_msg_type usage ++ bytes))

  unfoldable pub derive_key : Bytes → Bytes → Result Error Bytes
  derive_key protocol_key usage =
      bind (validate_key protocol_key) λ _. ok (algorithms.hmac_md5 protocol_key usage)

  unfoldable pub checksum : Bytes → Bytes → ℕ → Result Error Bytes
  checksum protocol_key bytes usage =
      bind (validate_key protocol_key) λ _. ok (kerb_checksum_hmac_md5 protocol_key bytes usage)

  unfoldable pub verify_checksum : Bytes → Bytes → Bytes → ℕ → Bool
  unfolding constant_time_eq
  verify_checksum protocol_key bytes checksum' usage =
      is_ok_and (checksum protocol_key bytes usage)
        (λ expected. constant_time_eq expected checksum')

  unfoldable pub encrypt_data : Bytes → Bytes → Result Error Bytes
  encrypt_data key plaintext = bind (validate_key key) λ _. rc4_hmac_crypt key plaintext

  unfoldable pub decrypt_data : Bytes → Bytes → Result Error Bytes
  decrypt_data key ciphertext = bind (validate_key key) λ _. rc4_hmac_crypt key ciphertext

  unfoldable pub encrypt_message_with_confounder : Bytes → Bytes → ℕ → Bytes → Result Error Bytes
  encrypt_message_with_confounder protocol_key message usage confounder =
      bind (validate_key protocol_key) λ _.
        if not (length confounder == confounder_len)
        then err (invalid_confounder_length confounder_len (length confounder))
        else let plain = confounder ++ message in
          let usage_key = algorithms.hmac_md5 protocol_key (rc4_hmac_usage_to_ms_msg_type usage) in
          let code = algorithms.hmac_md5 usage_key plain in
          bind (rc4_hmac_crypt (algorithms.hmac_md5 usage_key code) plain)
            λ encrypted. ok (code ++ encrypted)

  unfoldable pub decrypt_message : Bytes → Bytes → ℕ → Result Error Bytes
  decrypt_message protocol_key ciphertext usage = bind (validate_key protocol_key) λ _.
      let minimum = hmac_len + confounder_len in
      if ltb (length ciphertext) minimum
      then err (ciphertext_too_short minimum (length ciphertext))
      else let code = take hmac_len ciphertext in
        let usage_key = algorithms.hmac_md5 protocol_key (rc4_hmac_usage_to_ms_msg_type usage) in
        bind (rc4_hmac_crypt (algorithms.hmac_md5 usage_key code) (drop hmac_len ciphertext))
          λ plain.
            if ltb (length plain) confounder_len
            then err (plaintext_too_short confounder_len (length plain))
            else if not (constant_time_eq (algorithms.hmac_md5 usage_key plain) code)
            then err integrity_check_failed
            else ok (drop confounder_len plain)

  -- The stream cipher of the crate: the same call takes it back, and the size stays.
  abbrev pub IsStream : Type 0
  IsStream =
      (key input : Bytes)
      → length key ≡ 16
      → (output : Bytes) × (algorithms.rc4 key input ≡ some output)
        × (algorithms.rc4 key output ≡ some input)
        × (length output ≡ length input)

  -- A message of any size is encrypted and decrypted to itself by RC4. The key and the confounder have their
  -- sizes, the stream cipher takes itself back, and the hash has 16 bytes.
  pub decrypt_message-encrypt_message_rc4 :
      (protocol_key message confounder : Bytes) (usage : ℕ)
      → IsStream
      → ((key bytes : Bytes) → length (algorithms.hmac_md5 key bytes) ≡ 16)
      → length protocol_key ≡ 16
      → length confounder ≡ 8
      → bind
          (encrypt_message_with_confounder protocol_key message usage confounder)
          (λ ciphertext. decrypt_message protocol_key ciphertext usage)
        ≡ ok message
  unfolding encrypt_message_with_confounder decrypt_message rc4_hmac_crypt
  decrypt_message-encrypt_message_rc4 protocol_key message confounder usage stream digest size
        random =
      let plain = confounder ++ message in
      let usage_key = algorithms.hmac_md5 protocol_key (rc4_hmac_usage_to_ms_msg_type usage) in
      let code = algorithms.hmac_md5 usage_key plain in
      let key = algorithms.hmac_md5 usage_key code in
      let (encrypted, closed, opened, same) = stream key plain (digest usage_key code) in
      let plain_size = length-append confounder message in
      let long : ltb (length (code ++ encrypted)) 24 ≡ false =
        ground (arith, length-append code encrypted, digest usage_key plain, same, plain_size) in
      let long' : ltb (length plain) 8 ≡ false = ground (arith, plain_size) in
      rw
        (
          size,
          random,
          closed,
          long,
          take-take_append 16 code encrypted (digest usage_key plain),
          drop-drop_append 16 code encrypted (digest usage_key plain),
          opened,
          long',
          (constant_time_eq_iff code code).1 refl,
          drop-drop_append 8 confounder message random,
        )
        refl

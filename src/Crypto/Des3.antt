-- ===== src/Crypto/Des3.antt =====
-- `Des3CbcSha1KdEtype` of src/crypto.rs: its mode and its messages.
use rskrb.Prelude.{
  ℕ, zero, suc, ◌+◌, ◌-◌, ◌/◌, ◌%◌, min, Bool, not, [], ◌++◌, ltb, ◌==◌, if◌then◌else◌, length,
  take, drop,
}
use rskrb.Result.{Result, ok, err, stuck, bind}
use rskrb.Wire.{Bytes}
use rskrb.Gss.Mic.{constant_time_eq}
use rskrb.Gss.Wrap.{zeros}
use rskrb.Crypto.{
  Error, Algorithms, invalid_key_length, invalid_confounder_length, ciphertext_too_short,
  plaintext_too_short, empty_usage, integrity_check_failed, empty_plaintext,
  invalid_ciphertext_block_size,
}
use rskrb.Crypto.Modes.{zero_pad, encrypt_chunks, decrypt_chunks, last_block}
use rskrb.Crypto.Folding.{nfold}
use rskrb.Crypto.Sha1.{usage_constant, is_ok_and}
use rskrb.Crypto.Des3Keys.{des3_random_to_key}

abbrev pub key_len : ℕ
key_len = 24

abbrev pub confounder_len : ℕ
confounder_len = 8

abbrev pub hmac_len : ℕ
hmac_len = 20

module _ (algorithms : Algorithms) where
  -- The next initial vector and the ciphertext.
  unfoldable pub des3_cbc_encrypt : Bytes → Bytes → Result Error (Bytes × Bytes)
  unfolding encrypt_chunks
  des3_cbc_encrypt key plaintext =
      if length plaintext == 0
      then err empty_plaintext
      else let padded = zero_pad plaintext 8 in
        let out =
          encrypt_chunks 8 (algorithms.des3_encrypt_block key) (length padded / 8) (zeros 8)
            padded in
        ok (last_block 8 (zeros 8) out, out)

  unfoldable pub des3_cbc_decrypt : Bytes → Bytes → Result Error Bytes
  unfolding decrypt_chunks
  des3_cbc_decrypt key ciphertext =
      if ltb (length ciphertext) 8
      then err (ciphertext_too_short 8 (length ciphertext))
      else if not (length ciphertext % 8 == 0)
      then err (invalid_ciphertext_block_size 8 (length ciphertext))
      else ok (
          decrypt_chunks 8 (algorithms.des3_decrypt_block key) (length ciphertext / 8) (zeros 8)
            ciphertext)

  abbrev pub validate_key : Bytes → Result Error (Unit {0})
  validate_key key =
      if not (length key == key_len) then err (invalid_key_length (key_len) (length key)) else ok tt

  unfoldable pub encrypt_data : Bytes → Bytes → Result Error (Bytes × Bytes)
  encrypt_data key plaintext = bind (validate_key key) λ _. des3_cbc_encrypt key plaintext

  unfoldable pub decrypt_data : Bytes → Bytes → Result Error Bytes
  decrypt_data key ciphertext = bind (validate_key key) λ _. des3_cbc_decrypt key ciphertext

  -- The rounds of `derive_random`; each but the last adds a block.
  unfoldable pub derive_loop : ℕ → Bytes → Bytes → Bytes → Result Error Bytes
  derive_loop zero protocol_key out block = stuck
  derive_loop (suc fuel) protocol_key out block =
      let out' = out ++ take (min (21 - length out) (length block)) block in
      let more =
        bind (encrypt_data protocol_key block)
          λ (_, next). derive_loop fuel protocol_key out' next in
      if ltb (length out) (21) then (if ltb (length out') (21) then more else ok out') else ok out

  unfoldable pub derive_random : Bytes → Bytes → Result Error Bytes
  unfolding derive_loop
  derive_random protocol_key usage = bind (validate_key protocol_key) λ _.
      if length usage == 0
      then err empty_usage
      else bind (nfold usage 64) λ folded_usage.
        bind (encrypt_data protocol_key folded_usage)
          λ (_, block). derive_loop 21 protocol_key [] block

  unfoldable pub derive_key : Bytes → Bytes → Result Error Bytes
  derive_key protocol_key usage =
      bind (derive_random protocol_key usage) λ random. des3_random_to_key random

  unfoldable pub checksum : Bytes → Bytes → ℕ → Result Error Bytes
  checksum protocol_key bytes usage =
      bind (derive_key protocol_key (usage_constant usage 0x99))
        λ key. ok (algorithms.hmac_sha1 key bytes)

  unfoldable pub verify_checksum : Bytes → Bytes → Bytes → ℕ → Bool
  unfolding constant_time_eq
  verify_checksum protocol_key bytes checksum' usage =
      is_ok_and (checksum protocol_key bytes usage)
        (λ expected. constant_time_eq expected checksum')

  unfoldable pub encrypt_message_with_confounder : Bytes → Bytes → ℕ → Bytes → Result Error Bytes
  encrypt_message_with_confounder protocol_key message usage confounder =
      bind (validate_key protocol_key) λ _.
        if not (length confounder == confounder_len)
        then err (invalid_confounder_length (confounder_len) (length confounder))
        else let plain = zero_pad (confounder ++ message) 8 in
          bind (derive_key protocol_key (usage_constant usage 0xaa)) λ encryption_key.
            bind (encrypt_data encryption_key plain) λ (_, encrypted).
              bind (derive_key protocol_key (usage_constant usage 0x55))
                λ integrity_key. ok (encrypted ++ algorithms.hmac_sha1 integrity_key plain)

  unfoldable pub decrypt_message : Bytes → Bytes → ℕ → Result Error Bytes
  decrypt_message protocol_key ciphertext usage = bind (validate_key protocol_key) λ _.
      let minimum = hmac_len + confounder_len in
      if ltb (length ciphertext) minimum
      then err (ciphertext_too_short minimum (length ciphertext))
      else let encrypted = take (length ciphertext - hmac_len) ciphertext in
        let mac = drop (length ciphertext - hmac_len) ciphertext in
        bind (derive_key protocol_key (usage_constant usage 0xaa)) λ encryption_key.
          bind (decrypt_data encryption_key encrypted) λ plain.
            if ltb (length plain) (confounder_len)
            then err (plaintext_too_short (confounder_len) (length plain))
            else bind (derive_key protocol_key (usage_constant usage 0x55)) λ integrity_key.
              if not (constant_time_eq (algorithms.hmac_sha1 integrity_key plain) mac)
              then err integrity_check_failed
              else ok (drop (confounder_len) plain)

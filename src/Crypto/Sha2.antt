-- ===== src/Crypto/Sha2.antt =====
-- `AesSha2Etype` of src/crypto.rs, except for the password: PBKDF2 is a crate. `validate_protocol_key`
-- and `validate_encrypt_key` are the same test, written once.
use rskrb.Prelude.{
  ℕ, ◌+◌, ◌-◌, ◌*◌, ◌/◌, ◌%◌, ◌^◌, Bool, false, not, [], ◌∷◌, ◌++◌, Option, none, some, ltb, ◌==◌,
  if◌then◌else◌, length, take, drop,
}
use rskrb.Prelude.Int.{ℤ, pos, int_eq}
use rskrb.Prelude.Text.{text_eq}
use rskrb.Result.{Result, ok, err, bind}
use rskrb.Wire.{Bytes, big, to_bytes32}
use rskrb.Gss.Mic.{constant_time_eq}
use rskrb.Crypto.{
  Error, Algorithms, invalid_key_length, invalid_confounder_length, ciphertext_too_short,
  plaintext_too_short, empty_usage, integrity_check_failed,
}
use rskrb.Crypto.Modes.{aes_cts_encrypt, aes_cts_decrypt}
use rskrb.Crypto.Sha1.{usage_constant, is_ok_and}
use rskrb.Gss.Wrap.{zeros}

pub data AesSha2Etype : Type 0 where
  aes128 aes256 : AesSha2Etype

abbrev pub from_etype_id : ℤ → Option AesSha2Etype
from_etype_id etype_id =
    if int_eq etype_id (pos 19)
    then some aes128
    else if int_eq etype_id (pos 20)
    then some aes256
    else none

abbrev pub etype_id : AesSha2Etype → ℤ
etype_id aes128 = pos 19
etype_id aes256 = pos 20

abbrev pub checksum_type_id : AesSha2Etype → ℤ
checksum_type_id aes128 = pos 19
checksum_type_id aes256 = pos 20

abbrev pub key_len : AesSha2Etype → ℕ
key_len aes128 = 16
key_len aes256 = 32

abbrev pub confounder_len : AesSha2Etype → ℕ
confounder_len etype = 16

abbrev pub hmac_len : AesSha2Etype → ℕ
hmac_len aes128 = 16
hmac_len aes256 = 24

abbrev pub hash_len : AesSha2Etype → ℕ
hash_len aes128 = 32
hash_len aes256 = 48

-- `b"kerberos"`
abbrev pub kerberos_constant : Bytes
kerberos_constant = 107 ∷ 101 ∷ 114 ∷ 98 ∷ 101 ∷ 114 ∷ 111 ∷ 115 ∷ []

-- `label.last() == Some(&0xaa)`
abbrev pub ends_in : Bytes → ℕ → Bool
ends_in [] byte = false
ends_in (x ∷ []) byte = x == byte
ends_in (x ∷ y ∷ bytes) byte = ends_in (y ∷ bytes) byte

unfoldable pub derive_key_bits : AesSha2Etype → Bytes → ℕ
unfolding text_eq
derive_key_bits aes128 label = 128
derive_key_bits aes256 label =
    if text_eq label kerberos_constant then 256 else if ends_in label 0xaa then 256 else 192

module _ (algorithms : Algorithms) where
  -- The hash of each type.
  abbrev pub hmac : AesSha2Etype → Bytes → Bytes → Bytes
  hmac aes128 = algorithms.hmac_sha256
  hmac aes256 = algorithms.hmac_sha384

  module _ (etype : AesSha2Etype) where
    abbrev pub validate_key : Bytes → Result Error (Unit {0})
    validate_key key =
        if not (length key == key_len etype)
        then err (invalid_key_length (key_len etype) (length key))
        else ok tt

    unfoldable pub encrypt_data : Bytes → Bytes → Result Error (Bytes × Bytes)
    encrypt_data key plaintext =
        bind (validate_key key) λ _. aes_cts_encrypt algorithms key plaintext

    unfoldable pub decrypt_data : Bytes → Bytes → Result Error Bytes
    decrypt_data key ciphertext =
        bind (validate_key key) λ _. aes_cts_decrypt algorithms key ciphertext

    unfoldable pub kdf_hmac_sha2 : Bytes → Bytes → Bytes → ℕ → Bytes
    kdf_hmac_sha2 protocol_key label context output_bits = take (output_bits / 8) (
        hmac etype protocol_key
          (to_bytes32 big 1 ++ (label ++ (0 ∷ (context ++ to_bytes32 big (output_bits % 2 ^ 32))))))

    abbrev pub truncated_hmac : Bytes → Bytes → Bytes
    truncated_hmac key bytes = take (hmac_len etype) (hmac etype key bytes)

    unfoldable pub derive_key : Bytes → Bytes → Result Error Bytes
    unfolding kdf_hmac_sha2
    derive_key protocol_key label = bind (validate_key protocol_key) λ _.
        if length label == 0
        then err empty_usage
        else ok (kdf_hmac_sha2 protocol_key label [] (derive_key_bits etype label))

    unfoldable pub derive_random : Bytes → Bytes → Result Error Bytes
    unfolding kdf_hmac_sha2
    derive_random protocol_key usage = bind (validate_key protocol_key) λ _.
        if length usage == 0
        then err empty_usage
        else ok (kdf_hmac_sha2 protocol_key (112 ∷ 114 ∷ 102 ∷ []) usage (hash_len etype * 8))

    unfoldable pub integrity_hash : Bytes → ℕ → Bytes → Result Error Bytes
    integrity_hash protocol_key usage encrypted =
        bind (derive_key protocol_key (usage_constant usage 0x55))
          λ integrity_key. ok (truncated_hmac integrity_key (zeros 16 ++ encrypted))

    unfoldable pub checksum : Bytes → Bytes → ℕ → Result Error Bytes
    checksum protocol_key bytes usage =
        bind (derive_key protocol_key (usage_constant usage 0x99))
          λ key. ok (truncated_hmac key bytes)

    unfoldable pub verify_checksum : Bytes → Bytes → Bytes → ℕ → Bool
    unfolding constant_time_eq
    verify_checksum protocol_key bytes checksum' usage =
        is_ok_and (checksum protocol_key bytes usage)
          (λ expected. constant_time_eq expected checksum')

    unfoldable pub encrypt_message_with_confounder : Bytes → Bytes → ℕ → Bytes → Result Error Bytes
    encrypt_message_with_confounder protocol_key message usage confounder =
        bind (validate_key protocol_key) λ _.
          if not (length confounder == confounder_len etype)
          then err (invalid_confounder_length (confounder_len etype) (length confounder))
          else let plain = confounder ++ message in
            bind (derive_key protocol_key (usage_constant usage 0xaa)) λ encryption_key.
              bind (encrypt_data encryption_key plain) λ (_, encrypted).
                bind (integrity_hash protocol_key usage encrypted) λ mac. ok (encrypted ++ mac)

    unfoldable pub decrypt_message : Bytes → Bytes → ℕ → Result Error Bytes
    decrypt_message protocol_key ciphertext usage = bind (validate_key protocol_key) λ _.
        let minimum = hmac_len etype + confounder_len etype in
        if ltb (length ciphertext) minimum
        then err (ciphertext_too_short minimum (length ciphertext))
        else let encrypted = take (length ciphertext - hmac_len etype) ciphertext in
          let mac = drop (length ciphertext - hmac_len etype) ciphertext in
          bind (derive_key protocol_key (usage_constant usage 0xaa)) λ encryption_key.
            bind (decrypt_data encryption_key encrypted) λ plain.
              if ltb (length plain) (confounder_len etype)
              then err (plaintext_too_short (confounder_len etype) (length plain))
              else bind (integrity_hash protocol_key usage encrypted) λ expected.
                if not (constant_time_eq expected mac)
                then err integrity_check_failed
                else ok (drop (confounder_len etype) plain)

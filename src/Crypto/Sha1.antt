-- ===== src/Crypto/Sha1.antt =====
-- `AesSha1Etype` of src/crypto.rs, except for the password: PBKDF2 is a crate. The confounder is given.
use rskrb.Prelude.{
  ℕ, zero, suc, ◌+◌, ◌-◌, min, Bool, false, not, [], ◌∷◌, ◌++◌, Option, none, some, ltb, ◌==◌,
  if◌then◌else◌, length, take, drop,
}
use rskrb.Prelude.Int.{ℤ, pos, int_eq}
use rskrb.Result.{Result, ok, err, stuck, bind}
use rskrb.Wire.{Bytes, big, to_bytes32}
use rskrb.Gss.Mic.{constant_time_eq}
use rskrb.Crypto.{
  Error, Algorithms, invalid_key_length, invalid_confounder_length, ciphertext_too_short,
  plaintext_too_short, empty_usage, integrity_check_failed,
}
use rskrb.Crypto.Modes.{aes_cts_encrypt, aes_cts_decrypt}
use rskrb.Crypto.Folding.{nfold}

pub data AesSha1Etype : Type 0 where
  aes128 aes256 : AesSha1Etype

abbrev pub from_etype_id : ℤ → Option AesSha1Etype
from_etype_id etype_id =
    if int_eq etype_id (pos 17)
    then some aes128
    else if int_eq etype_id (pos 18)
    then some aes256
    else none

abbrev pub etype_id : AesSha1Etype → ℤ
etype_id aes128 = pos 17
etype_id aes256 = pos 18

abbrev pub checksum_type_id : AesSha1Etype → ℤ
checksum_type_id aes128 = pos 15
checksum_type_id aes256 = pos 16

abbrev pub key_len : AesSha1Etype → ℕ
key_len aes128 = 16
key_len aes256 = 32

abbrev pub confounder_len : AesSha1Etype → ℕ
confounder_len etype = 16

abbrev pub hmac_len : AesSha1Etype → ℕ
hmac_len etype = 12

abbrev pub usage_constant : ℕ → ℕ → Bytes
usage_constant usage suffix = to_bytes32 big usage ++ (suffix ∷ [])

-- The value of a result, as `is_ok_and` takes it.
abbrev pub is_ok_and : {A : Type 0} → Result Error A → (A → Bool) → Bool
is_ok_and (ok a) f = f a
is_ok_and _ f = false

module _ (algorithms : Algorithms) where
  abbrev pub hmac_sha1_96 : Bytes → Bytes → Bytes
  hmac_sha1_96 key bytes = take 12 (algorithms.hmac_sha1 key bytes)

  module _ (etype : AesSha1Etype) where
    abbrev pub validate_key : Bytes → Result Error (Unit {0})
    validate_key key =
        if not (length key == key_len etype)
        then err (invalid_key_length (key_len etype) (length key))
        else ok tt

    unfoldable pub encrypt_data : Bytes → Bytes → Result Error (Bytes × Bytes)
    encrypt_data key plaintext =
        bind (validate_key key) λ _. aes_cts_encrypt algorithms key plaintext

    unfoldable pub decrypt_data : Bytes → Bytes → Result Error Bytes
    decrypt_data key ciphertext =
        bind (validate_key key) λ _. aes_cts_decrypt algorithms key ciphertext

    -- The rounds of `derive_random`; each but the last adds a block.
    unfoldable pub derive_loop : ℕ → Bytes → Bytes → Bytes → Result Error Bytes
    derive_loop zero protocol_key out block = stuck
    derive_loop (suc fuel) protocol_key out block =
        let out' = out ++ take (min (key_len etype - length out) (length block)) block in
        let more =
          bind (encrypt_data protocol_key block)
            λ (_, next). derive_loop fuel protocol_key out' next in
        if ltb (length out) (key_len etype)
        then (if ltb (length out') (key_len etype) then more else ok out')
        else ok out

    unfoldable pub derive_random : Bytes → Bytes → Result Error Bytes
    unfolding derive_loop
    derive_random protocol_key usage = bind (validate_key protocol_key) λ _.
        if length usage == 0
        then err empty_usage
        else bind (nfold usage 128) λ folded_usage.
          bind (encrypt_data protocol_key folded_usage)
            λ (_, block). derive_loop 32 protocol_key [] block

    unfoldable pub derive_key : Bytes → Bytes → Result Error Bytes
    derive_key protocol_key usage =
        bind (validate_key protocol_key) λ _. derive_random protocol_key usage

    unfoldable pub checksum : Bytes → Bytes → ℕ → Result Error Bytes
    checksum protocol_key bytes usage =
        bind (derive_key protocol_key (usage_constant usage 0x99))
          λ key. ok (hmac_sha1_96 key bytes)

    unfoldable pub verify_checksum : Bytes → Bytes → Bytes → ℕ → Bool
    unfolding constant_time_eq
    verify_checksum protocol_key bytes checksum' usage =
        is_ok_and (checksum protocol_key bytes usage)
          (λ expected. constant_time_eq expected checksum')

    unfoldable pub encrypt_message_with_confounder : Bytes → Bytes → ℕ → Bytes → Result Error Bytes
    encrypt_message_with_confounder protocol_key message usage confounder =
        bind (validate_key protocol_key) λ _.
          if not (length confounder == confounder_len etype)
          then err (invalid_confounder_length (confounder_len etype) (length confounder))
          else let plain = confounder ++ message in
            bind (derive_key protocol_key (usage_constant usage 0xaa)) λ encryption_key.
              bind (encrypt_data encryption_key plain) λ (_, encrypted).
                bind (derive_key protocol_key (usage_constant usage 0x55))
                  λ integrity_key. ok (encrypted ++ hmac_sha1_96 integrity_key plain)

    unfoldable pub decrypt_message : Bytes → Bytes → ℕ → Result Error Bytes
    decrypt_message protocol_key ciphertext usage = bind (validate_key protocol_key) λ _.
        let minimum = hmac_len etype + confounder_len etype in
        if ltb (length ciphertext) minimum
        then err (ciphertext_too_short minimum (length ciphertext))
        else let encrypted = take (length ciphertext - hmac_len etype) ciphertext in
          let mac = drop (length ciphertext - hmac_len etype) ciphertext in
          bind (derive_key protocol_key (usage_constant usage 0xaa)) λ encryption_key.
            bind (decrypt_data encryption_key encrypted) λ plain.
              if ltb (length plain) (confounder_len etype)
              then err (plaintext_too_short (confounder_len etype) (length plain))
              else bind (derive_key protocol_key (usage_constant usage 0x55)) λ integrity_key.
                if not (constant_time_eq (hmac_sha1_96 integrity_key plain) mac)
                then err integrity_check_failed
                else ok (drop (confounder_len etype) plain)

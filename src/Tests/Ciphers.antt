-- ===== src/Tests/Ciphers.antt =====
-- The AES profiles over a toy block cipher, the exclusive or with the key.
use rskrb.Prelude.{
  inr, ℕ, ◌≤◌, ◌≡◌, refl, [], ◌∷◌, ◌++◌, none, some, ltb, if◌then◌else◌, length, take, arith,
  length-take, length-append,
}
use rskrb.Prelude.Text.{codes}
use rskrb.Prelude.Int.{pos}
use rskrb.Result.{ok, bind}
use rskrb.Wire.{Bytes}
use rskrb.Gss.Wrap.{zeros, WrapToken}
use rskrb.Crypto.{Algorithms}
use rskrb.Crypto.Modes.{
  xor_bytes, zero_pad, encrypt_chunks, cbc_encrypt, swap_last_two_blocks, steal_encrypt,
  aes_cts_encrypt,
}
use rskrb.Crypto.Cbc.{Inverts, length-xor_bytes, xor_bytes_cancel}
use rskrb.Crypto.CtsRoundTrip.{cts_twice, aes_cts_decrypt-aes_cts_encrypt}
use rskrb.Crypto.Folding.{nfold, rotate_bits, ones_complement_addition, gcd}
use rskrb.Crypto.Messages.{
  decrypt_message-encrypt_message_sha1, decrypt_message-encrypt_message_sha2,
}
use rskrb.Crypto.Sha1.{usage_constant}
use rskrb.Keytab.{EncryptionKey}
use rskrb.Service.Messages.{sha2_aes128, from_etype_id}
use rskrb.Gss.Sealed.{sealed_exchange}
use rskrb.Crypto.Etypes.{ciphers_of}
use rskrb.Crypto.SealedMessages.{sealed_exchange-ciphers_of}
use rskrb.Crypto.Sha1 as Sha1
use rskrb.Crypto.Sha2 as Sha2

-- A toy hash of that many bytes.
abbrev pad_to : ℕ → Bytes → Bytes
pad_to n bytes = take n (bytes ++ zeros n)

abbrev algorithms : Algorithms
algorithms = record {
  encrypt_block = λ key block. xor_bytes block key;
  decrypt_block = λ key block. xor_bytes block key;
  des3_encrypt_block = λ key block. xor_bytes block key;
  des3_decrypt_block = λ key block. xor_bytes block key;
  hmac_sha1 = λ key bytes. pad_to 20 (key ++ bytes);
  hmac_sha256 = λ key bytes. pad_to 32 (key ++ bytes);
  hmac_sha384 = λ key bytes. pad_to 48 (key ++ bytes);
  hmac_md5 = λ key bytes. pad_to 16 (key ++ bytes);
  md5 = λ bytes. pad_to 16 bytes;
  rc4 = λ key bytes. some bytes;
}

toy_inverts :
    (key : Bytes)
    → 16 ≤ length key
    → Inverts (algorithms.encrypt_block key) (algorithms.decrypt_block key)
toy_inverts key h block e = (
  omega (arith, length-xor_bytes block key (omega (arith, e))),
  xor_bytes_cancel block key (omega (arith, e)),
)

abbrev key : Bytes
key = codes "0123456789abcdef"

abbrev text : Bytes
text = codes "a text that is longer than two blocks"

aes_cts_decrypt-aes_cts_encrypt_example :
    cts_twice algorithms key (toy_inverts key (omega arith)) text
    ≡ ok (if ltb (length text) 16 then zero_pad text 16 else text)
aes_cts_decrypt-aes_cts_encrypt_example =
    aes_cts_decrypt-aes_cts_encrypt algorithms key (toy_inverts key (omega arith)) text
      (omega arith)

-- The n-fold of RFC 3961, A.1: "kerberos" in 64 bits and "012345" in 64 bits.
nfold_kerberos : nfold (codes "kerberos") 64 ≡ ok (codes "kerberos")
unfolding nfold rotate_bits ones_complement_addition gcd
nfold_kerberos = refl

nfold_digits :
    nfold (codes "012345") 64 ≡ ok (0xbe ∷ 0x07 ∷ 0x26 ∷ 0x31 ∷ 0x27 ∷ 0x6b ∷ 0x19 ∷ 0x55 ∷ [])
unfolding nfold rotate_bits ones_complement_addition gcd
nfold_digits = refl

abbrev confounder : Bytes
confounder = codes "ABCDEFGHIJKLMNOP"

abbrev sha1_encryption_key : Bytes
sha1_encryption_key =
    158 ∷ 29 ∷ 36 ∷ 56 ∷ 48 ∷ 152 ∷ 102 ∷ 49 ∷ 147 ∷ 108 ∷ 203 ∷ 183 ∷ 9 ∷ 228 ∷ 80 ∷ 60 ∷ []

abbrev sha1_integrity_key : Bytes
sha1_integrity_key =
    107 ∷ 105 ∷ 30 ∷ 37 ∷ 62 ∷ 111 ∷ 158 ∷ 50 ∷ 110 ∷ 146 ∷ 52 ∷ 200 ∷ 182 ∷ 36 ∷ 79 ∷ 211 ∷ []

sha1_derived :
    Sha1.derive_key algorithms Sha1.aes128 key (usage_constant 1 0xaa) ≡ ok sha1_encryption_key
unfolding Sha1.derive_key Sha1.derive_random Sha1.derive_loop Sha1.encrypt_data aes_cts_encrypt
    cbc_encrypt encrypt_chunks swap_last_two_blocks zero_pad steal_encrypt nfold rotate_bits
    ones_complement_addition gcd
sha1_derived = refl

sha1_derived' :
    Sha1.derive_key algorithms Sha1.aes128 key (usage_constant 1 0x55) ≡ ok sha1_integrity_key
unfolding Sha1.derive_key Sha1.derive_random Sha1.derive_loop Sha1.encrypt_data aes_cts_encrypt
    cbc_encrypt encrypt_chunks swap_last_two_blocks zero_pad steal_encrypt nfold rotate_bits
    ones_complement_addition gcd
sha1_derived' = refl

decrypt_message-encrypt_message_sha1_example :
    bind
      (Sha1.encrypt_message_with_confounder algorithms Sha1.aes128 key text 1 confounder)
      (λ ciphertext. Sha1.decrypt_message algorithms Sha1.aes128 key ciphertext 1)
    ≡ ok text
decrypt_message-encrypt_message_sha1_example =
    decrypt_message-encrypt_message_sha1 algorithms 1 key text confounder sha1_encryption_key
      sha1_integrity_key (toy_inverts sha1_encryption_key (omega arith)) refl Sha1.aes128 refl
      sha1_derived sha1_derived' refl

sha2_derived : Sha2.derive_key algorithms Sha2.aes128 key (usage_constant 1 0xaa) ≡ ok key
unfolding Sha2.derive_key Sha2.kdf_hmac_sha2 Sha2.derive_key_bits
sha2_derived = refl

sha2_derived' : Sha2.derive_key algorithms Sha2.aes128 key (usage_constant 1 0x55) ≡ ok key
unfolding Sha2.derive_key Sha2.kdf_hmac_sha2 Sha2.derive_key_bits
sha2_derived' = refl

sha2_size : (bytes : Bytes) → length (Sha2.truncated_hmac algorithms Sha2.aes128 key bytes) ≡ 16
sha2_size bytes =
    let long = (key ++ bytes) ++ zeros 32 in
    omega (
      arith,
      length-take 16 (take 32 long),
      length-take 32 long,
      length-append (key ++ bytes) (zeros 32),
    )

decrypt_message-encrypt_message_sha2_example :
    bind
      (Sha2.encrypt_message_with_confounder algorithms Sha2.aes128 key text 1 confounder)
      (λ ciphertext. Sha2.decrypt_message algorithms Sha2.aes128 key ciphertext 1)
    ≡ ok text
decrypt_message-encrypt_message_sha2_example =
    decrypt_message-encrypt_message_sha2 algorithms 1 key text confounder key key
      (toy_inverts key (omega arith)) refl Sha2.aes128 refl sha2_derived sha2_derived' refl
      sha2_size

abbrev session_key : EncryptionKey
session_key = record { etype = pos 19; value = key }

abbrev token : WrapToken
token = record {
  flags = 4;
  ec = 3;
  rrc = 28;
  snd_seq_num = 9;
  payload = some text;
  checksum = none;
  encrypted_body = none;
}

known : from_etype_id session_key.etype ≡ some sha2_aes128
unfolding from_etype_id
known = refl

sealed_exchange-ciphers_of_example :
    sealed_exchange (ciphers_of algorithms) session_key sha2_aes128 1 token confounder ≡ ok text
sealed_exchange-ciphers_of_example =
    sealed_exchange-ciphers_of algorithms 1 (inr Sha2.aes128) session_key token text confounder key
      key (omega arith) refl refl known refl (toy_inverts key (omega arith))
      (refl, sha2_derived, sha2_derived', refl, sha2_size)

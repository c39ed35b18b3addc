-- ===== src/Crypto.antt =====
-- The profiles of src/crypto.rs: the data. The block ciphers, the stream cipher and the hashes are
-- crates; they are the fields of `Algorithms`.
pub mod Modes
pub mod Cbc
pub mod Stealing
pub mod Cts
pub mod CtsRoundTrip
pub mod Parameters
pub mod Folding
pub mod Sha1
pub mod Sha2
pub mod DerivedKeys
pub mod Messages
pub mod Rc4
pub mod Des3Keys
pub mod Des3
pub mod Etypes
pub mod SealedMessages
use rskrb.Prelude.{ℕ, ◌+◌, Option, ◌≡◌, length}
use rskrb.Wire.{Bytes}

-- The variants of `Error`.
pub data Error : Type 0 where
  invalid_key_length : ℕ → ℕ → Error
  invalid_seed_length : ℕ → ℕ → Error
  invalid_confounder_length : ℕ → ℕ → Error
  ciphertext_too_short : ℕ → ℕ → Error
  plaintext_too_short : ℕ → ℕ → Error
  invalid_ciphertext_block_size : ℕ → ℕ → Error
  invalid_s2k_params_length : ℕ → Error
  invalid_s2k_params_hex : ℕ → Error
  invalid_nfold_output_bits : ℕ → Error
  unsupported_iteration_count_zero : Error
  empty_usage : Error
  empty_nfold_input : Error
  empty_plaintext : Error
  integrity_check_failed : Error

-- All but the digest take a key. `encrypt_block` and `decrypt_block` choose AES-128 or AES-256 by the key's length.
pub record Algorithms : Type 0 where
  pub encrypt_block : Bytes → Bytes → Bytes
  pub decrypt_block : Bytes → Bytes → Bytes
  pub des3_encrypt_block : Bytes → Bytes → Bytes
  pub des3_decrypt_block : Bytes → Bytes → Bytes
  pub hmac_sha1 : Bytes → Bytes → Bytes
  pub hmac_sha256 : Bytes → Bytes → Bytes
  pub hmac_sha384 : Bytes → Bytes → Bytes
  pub hmac_md5 : Bytes → Bytes → Bytes
  pub md5 : Bytes → Bytes
  pub rc4 : Bytes → Bytes → Option Bytes

abbrev pub aes_block_size : ℕ
aes_block_size = 16

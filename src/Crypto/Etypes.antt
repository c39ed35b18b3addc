-- ===== src/Crypto/Etypes.antt =====
-- The dispatch of `KerberosEtype` in src/crypto.rs to the profiles.
use rskrb.Prelude.{ℕ, ◌≡◌, refl, Bool, Option, none, some, if◌then◌else◌}
use rskrb.Prelude.Int.{ℤ, pos, negsuc, int_eq}
use rskrb.Result.{Result}
use rskrb.Wire.{Bytes}
use rskrb.Service.Messages.{
  KerberosEtype, sha1_aes128, sha1_aes256, sha2_aes128, sha2_aes256, des3_cbc_sha1_kd, rc4_hmac,
  from_etype_id,
}
use rskrb.Gss.{Ciphers}
use rskrb.Crypto.{Error, Algorithms}
use rskrb.Crypto.Sha1 as Sha1
use rskrb.Crypto.Sha2 as Sha2
use rskrb.Crypto.Des3 as Des3
use rskrb.Crypto.Rc4 as Rc4

unfoldable pub from_checksum_type_id : ℤ → Option KerberosEtype
from_checksum_type_id checksum_type_id =
    if int_eq checksum_type_id (pos 12)
    then some des3_cbc_sha1_kd
    else if int_eq checksum_type_id (pos 15)
    then some sha1_aes128
    else if int_eq checksum_type_id (pos 16)
    then some sha1_aes256
    else if int_eq checksum_type_id (pos 19)
    then some sha2_aes128
    else if int_eq checksum_type_id (pos 20)
    then some sha2_aes256
    else if int_eq checksum_type_id (negsuc 137)
    then some rc4_hmac
    else none

unfoldable pub etype_id : KerberosEtype → ℤ
etype_id sha1_aes128 = Sha1.etype_id Sha1.aes128
etype_id sha1_aes256 = Sha1.etype_id Sha1.aes256
etype_id sha2_aes128 = Sha2.etype_id Sha2.aes128
etype_id sha2_aes256 = Sha2.etype_id Sha2.aes256
etype_id des3_cbc_sha1_kd = pos 16
etype_id rc4_hmac = pos 23

unfoldable pub checksum_type_id : KerberosEtype → ℤ
checksum_type_id sha1_aes128 = Sha1.checksum_type_id Sha1.aes128
checksum_type_id sha1_aes256 = Sha1.checksum_type_id Sha1.aes256
checksum_type_id sha2_aes128 = Sha2.checksum_type_id Sha2.aes128
checksum_type_id sha2_aes256 = Sha2.checksum_type_id Sha2.aes256
checksum_type_id des3_cbc_sha1_kd = pos 12
checksum_type_id rc4_hmac = negsuc 137

-- Each type is found again by its number, and by that of its checksums.
from_etype_id-etype_id : (etype : KerberosEtype) → from_etype_id (etype_id etype) ≡ some etype
unfolding from_etype_id etype_id
from_etype_id-etype_id sha1_aes128 = refl
from_etype_id-etype_id sha1_aes256 = refl
from_etype_id-etype_id sha2_aes128 = refl
from_etype_id-etype_id sha2_aes256 = refl
from_etype_id-etype_id des3_cbc_sha1_kd = refl
from_etype_id-etype_id rc4_hmac = refl

from_checksum_type_id-checksum_type_id :
    (etype : KerberosEtype) → from_checksum_type_id (checksum_type_id etype) ≡ some etype
unfolding from_checksum_type_id checksum_type_id
from_checksum_type_id-checksum_type_id sha1_aes128 = refl
from_checksum_type_id-checksum_type_id sha1_aes256 = refl
from_checksum_type_id-checksum_type_id sha2_aes128 = refl
from_checksum_type_id-checksum_type_id sha2_aes256 = refl
from_checksum_type_id-checksum_type_id des3_cbc_sha1_kd = refl
from_checksum_type_id-checksum_type_id rc4_hmac = refl

abbrev pub key_len : KerberosEtype → ℕ
key_len sha1_aes128 = Sha1.key_len Sha1.aes128
key_len sha1_aes256 = Sha1.key_len Sha1.aes256
key_len sha2_aes128 = Sha2.key_len Sha2.aes128
key_len sha2_aes256 = Sha2.key_len Sha2.aes256
key_len des3_cbc_sha1_kd = Des3.key_len
key_len rc4_hmac = Rc4.key_len

abbrev pub confounder_len : KerberosEtype → ℕ
confounder_len sha1_aes128 = Sha1.confounder_len Sha1.aes128
confounder_len sha1_aes256 = Sha1.confounder_len Sha1.aes256
confounder_len sha2_aes128 = Sha2.confounder_len Sha2.aes128
confounder_len sha2_aes256 = Sha2.confounder_len Sha2.aes256
confounder_len des3_cbc_sha1_kd = Des3.confounder_len
confounder_len rc4_hmac = Rc4.confounder_len

module _ (algorithms : Algorithms) where
  unfoldable pub checksum : KerberosEtype → Bytes → Bytes → ℕ → Result Error Bytes
  checksum sha1_aes128 = Sha1.checksum algorithms Sha1.aes128
  checksum sha1_aes256 = Sha1.checksum algorithms Sha1.aes256
  checksum sha2_aes128 = Sha2.checksum algorithms Sha2.aes128
  checksum sha2_aes256 = Sha2.checksum algorithms Sha2.aes256
  checksum des3_cbc_sha1_kd = Des3.checksum algorithms
  checksum rc4_hmac = Rc4.checksum algorithms

  unfoldable pub verify_checksum : KerberosEtype → Bytes → Bytes → Bytes → ℕ → Bool
  verify_checksum sha1_aes128 = Sha1.verify_checksum algorithms Sha1.aes128
  verify_checksum sha1_aes256 = Sha1.verify_checksum algorithms Sha1.aes256
  verify_checksum sha2_aes128 = Sha2.verify_checksum algorithms Sha2.aes128
  verify_checksum sha2_aes256 = Sha2.verify_checksum algorithms Sha2.aes256
  verify_checksum des3_cbc_sha1_kd = Des3.verify_checksum algorithms
  verify_checksum rc4_hmac = Rc4.verify_checksum algorithms

  unfoldable pub encrypt_message_with_confounder :
      KerberosEtype → Bytes → Bytes → ℕ → Bytes → Result Error Bytes
  encrypt_message_with_confounder sha1_aes128 =
      Sha1.encrypt_message_with_confounder algorithms Sha1.aes128
  encrypt_message_with_confounder sha1_aes256 =
      Sha1.encrypt_message_with_confounder algorithms Sha1.aes256
  encrypt_message_with_confounder sha2_aes128 =
      Sha2.encrypt_message_with_confounder algorithms Sha2.aes128
  encrypt_message_with_confounder sha2_aes256 =
      Sha2.encrypt_message_with_confounder algorithms Sha2.aes256
  encrypt_message_with_confounder des3_cbc_sha1_kd = Des3.encrypt_message_with_confounder algorithms
  encrypt_message_with_confounder rc4_hmac = Rc4.encrypt_message_with_confounder algorithms

  unfoldable pub decrypt_message : KerberosEtype → Bytes → Bytes → ℕ → Result Error Bytes
  decrypt_message sha1_aes128 = Sha1.decrypt_message algorithms Sha1.aes128
  decrypt_message sha1_aes256 = Sha1.decrypt_message algorithms Sha1.aes256
  decrypt_message sha2_aes128 = Sha2.decrypt_message algorithms Sha2.aes128
  decrypt_message sha2_aes256 = Sha2.decrypt_message algorithms Sha2.aes256
  decrypt_message des3_cbc_sha1_kd = Des3.decrypt_message algorithms
  decrypt_message rc4_hmac = Rc4.decrypt_message algorithms

  -- What the tokens call.
  abbrev pub ciphers_of : Ciphers Error
  ciphers_of = record {
    checksum = checksum;
    encrypt_message_with_confounder = encrypt_message_with_confounder;
    decrypt_message = decrypt_message;
  }

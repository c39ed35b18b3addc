-- ===== src/Service/Messages.antt =====
-- The reading of an AP-REQ that src/service.rs calls: src/ap_req.rs and src/ticket.rs up to the DER
-- decoder and the ciphers, which are the fields of `Primitives`.
use rskrb.Prelude.{ℕ, List, [], ◌∷◌, Option, none, some, not, if◌then◌else◌}
use rskrb.Prelude.Int.{ℤ, pos, int_eq}
use rskrb.Prelude.Text.{text_eq, codes}
use rskrb.Result.{Result, ok, err, bind, map_err}
use rskrb.Wire.{Bytes}
use rskrb.Der.{trim_zero_padded_der}
use rskrb.Service.{ApReqError, TicketError, ApReq, Ticket, EncTicketPart, Authenticator}
use rskrb.Keytab as Keytab

-- `crypto::KerberosEtype`
pub data KerberosEtype : Type 0 where
  sha1_aes128 : KerberosEtype
  sha1_aes256 : KerberosEtype
  sha2_aes128 : KerberosEtype
  sha2_aes256 : KerberosEtype
  des3_cbc_sha1_kd : KerberosEtype
  rc4_hmac : KerberosEtype

-- What is called: `rasn::der::decode`, whose error is its text, the cipher of an encryption type, and
-- the reading and the verification of a PAC.
pub record Primitives (F Pac : Type 0) : Type 0 where
  pub decode_ap_req_der : Bytes → Result Bytes ApReq
  pub decode_enc_ticket_part_der : Bytes → Result Bytes EncTicketPart
  pub decode_authenticator_der : Bytes → Result Bytes Authenticator
  pub decrypt_message : KerberosEtype → Bytes → Bytes → ℕ → Result F Bytes
  pub find_pac_in_authorization_data : List (ℤ × Bytes) → Result F (Option Pac)
  pub verify : Pac → Keytab.EncryptionKey → Result F (Unit {0})
  pub to_string : ℤ → Bytes

unfoldable pub from_etype_id : ℤ → Option KerberosEtype
from_etype_id etype_id =
    if int_eq etype_id (pos 17)
    then some sha1_aes128
    else if int_eq etype_id (pos 18)
    then some sha1_aes256
    else if int_eq etype_id (pos 19)
    then some sha2_aes128
    else if int_eq etype_id (pos 20)
    then some sha2_aes256
    else if int_eq etype_id (pos 16)
    then some des3_cbc_sha1_kd
    else if int_eq etype_id (pos 23)
    then some rc4_hmac
    else none

abbrev pub kdc_rep_ticket_usage : ℕ
kdc_rep_ticket_usage = 2

abbrev pub tgs_req_ap_req_authenticator_usage : ℕ
tgs_req_ap_req_authenticator_usage = 7

abbrev pub ap_req_authenticator_usage : ℕ
ap_req_authenticator_usage = 11

unfoldable pub authenticator_usage_for_ticket : Ticket → ℕ
authenticator_usage_for_ticket ticket = elim ticket.sname.string [
  | [] ↦ ap_req_authenticator_usage
  | component ∷ _ ↦
      if text_eq component (codes "krbtgt")
      then tgs_req_ap_req_authenticator_usage
      else ap_req_authenticator_usage
]

-- `ok_or` and `?` on an option.
abbrev require {ℓ κ ι} :
    {E : Type ℓ} {A : Type κ} {B : Type ι} → Option A → E → (A → Result E B) → Result E B
require none e f = err e
require (some a) e f = f a

module _ {F Pac : Type 0} (p : Primitives F Pac) where
  unfoldable pub validate_integer : Bytes → ℤ → ℤ → Result (ApReqError F) (Unit {0})
  validate_integer field actual expected =
      if not (int_eq actual expected)
      then err (ApReqError.invalid_message field expected (p.to_string actual))
      else ok tt

  unfoldable pub decode_ap_req : Bytes → Result (ApReqError F) ApReq
  unfolding validate_integer
  decode_ap_req bytes =
      bind (map_err (ApReqError.decode (codes "AP-REQ")) (p.decode_ap_req_der bytes)) λ ap_req.
        bind (validate_integer (codes "pvno") ap_req.pvno (pos 5))
          λ _. bind (validate_integer (codes "msg-type") ap_req.msg_type (pos 14)) λ _. ok ap_req

  unfoldable pub decrypt_ticket_enc_part :
      Ticket → Keytab.EncryptionKey → Result (TicketError F) EncTicketPart
  decrypt_ticket_enc_part ticket key =
      if not (int_eq key.etype ticket.enc_part.etype)
      then err (TicketError.key_etype_mismatch key.etype ticket.enc_part.etype)
      else require (from_etype_id key.etype) (TicketError.unsupported_etype key.etype) λ etype.
        bind
          (map_err TicketError.crypto
            (p.decrypt_message etype key.value ticket.enc_part.cipher kdc_rep_ticket_usage))
          λ plaintext.
            map_err (TicketError.decode (codes "EncTicketPart"))
              (p.decode_enc_ticket_part_der (trim_zero_padded_der plaintext))

  unfoldable pub decrypt_ap_req_authenticator :
      ApReq → Keytab.EncryptionKey → ℕ → Result (ApReqError F) Authenticator
  decrypt_ap_req_authenticator ap_req key usage =
      if not (int_eq key.etype ap_req.authenticator.etype)
      then err (ApReqError.key_etype_mismatch key.etype ap_req.authenticator.etype)
      else require (from_etype_id key.etype) (ApReqError.unsupported_etype key.etype) λ etype.
        bind
          (map_err ApReqError.crypto
            (p.decrypt_message etype key.value ap_req.authenticator.cipher usage))
          λ plaintext.
            map_err (ApReqError.decode (codes "Authenticator"))
              (p.decode_authenticator_der (trim_zero_padded_der plaintext))

-- ===== src/ApRep.antt =====
-- src/ap_rep.rs: AP-REP messages. The DER codec (the crate rasn) and the ciphers are the fields of
-- `Replies`; the confounder is given.
use rskrb.Prelude.{ℕ, Option, not, if◌then◌else◌}
use rskrb.Prelude.Int.{ℤ, pos, int_eq}
use rskrb.Prelude.Text.{codes}
use rskrb.Result.{Result, ok, err, bind, map_err}
use rskrb.Wire.{Bytes, ok_or}
use rskrb.Keytab.{EncryptionKey}
use rskrb.Service.{KerberosTime, RasnEncryptionKey, EncryptedData}
use rskrb.Service.Messages.{from_etype_id}
use rskrb.Gss.{Ciphers}

-- `rasn_kerberos::ApRep` and `EncApRepPart`.
pub record ApRep : Type 0 where
  pub pvno : ℤ
  pub msg_type : ℤ
  pub enc_part : EncryptedData

pub record EncApRepPart : Type 0 where
  pub ctime : KerberosTime
  pub cusec : ℤ
  pub subkey : Option RasnEncryptionKey
  pub seq_number : Option ℕ

-- The codec, whose errors are their texts, and the ciphers.
pub record Replies (F : Type 0) : Type 0 where
  pub encode_ap_rep_der : ApRep → Result Bytes Bytes
  pub decode_ap_rep_der : Bytes → Result Bytes ApRep
  pub encode_enc_ap_rep_part_der : EncApRepPart → Result Bytes Bytes
  pub decode_enc_ap_rep_part_der : Bytes → Result Bytes EncApRepPart
  pub ciphers : Ciphers F
  pub to_string : ℤ → Bytes

pub data Error (F : Type 0) : Type 0 where
  decode : Bytes → Bytes → Error F
  encode : Bytes → Bytes → Error F
  invalid_message : Bytes → ℤ → Bytes → Error F
  unsupported_etype : ℤ → Error F
  key_etype_mismatch : ℤ → ℤ → Error F
  crypto : F → Error F

abbrev pub krb5_pvno : ℤ
krb5_pvno = pos 5

abbrev pub krb_ap_rep_msg_type : ℤ
krb_ap_rep_msg_type = pos 15

abbrev pub ap_rep_encpart_usage : ℕ
ap_rep_encpart_usage = 12

module _ {F : Type 0} (p : Replies F) where
  unfoldable pub validate_integer : Bytes → ℤ → ℤ → Result (Error F) (Unit {0})
  validate_integer field actual expected =
      if not (int_eq actual expected)
      then err (Error.invalid_message field expected (p.to_string actual))
      else ok tt

  unfoldable pub validate_ap_rep : ApRep → Result (Error F) (Unit {0})
  unfolding validate_integer
  validate_ap_rep ap_rep =
      bind (validate_integer (codes "pvno") ap_rep.pvno krb5_pvno)
        λ _. validate_integer (codes "msg-type") ap_rep.msg_type krb_ap_rep_msg_type

  unfoldable pub decode_ap_rep : Bytes → Result (Error F) ApRep
  unfolding validate_ap_rep
  decode_ap_rep bytes =
      bind (map_err (Error.decode (codes "AP-REP")) (p.decode_ap_rep_der bytes))
        λ ap_rep. bind (validate_ap_rep ap_rep) λ _. ok ap_rep

  unfoldable pub encode_ap_rep : ApRep → Result (Error F) Bytes
  encode_ap_rep ap_rep = map_err (Error.encode (codes "AP-REP")) (p.encode_ap_rep_der ap_rep)

  unfoldable pub decode_enc_ap_rep_part : Bytes → Result (Error F) EncApRepPart
  decode_enc_ap_rep_part bytes =
      map_err (Error.decode (codes "EncApRepPart")) (p.decode_enc_ap_rep_part_der bytes)

  unfoldable pub decrypt_ap_rep_enc_part : ApRep → EncryptionKey → Result (Error F) EncApRepPart
  unfolding decode_enc_ap_rep_part
  decrypt_ap_rep_enc_part ap_rep key =
      if not (int_eq key.etype ap_rep.enc_part.etype)
      then err (Error.key_etype_mismatch key.etype ap_rep.enc_part.etype)
      else bind (ok_or (from_etype_id key.etype) (Error.unsupported_etype key.etype)) λ etype.
        bind
          (map_err Error.crypto
            (p.ciphers.decrypt_message etype key.value ap_rep.enc_part.cipher ap_rep_encpart_usage))
          λ plaintext. decode_enc_ap_rep_part plaintext

  unfoldable pub build_ap_rep_with_confounder :
      EncApRepPart → EncryptionKey → Option ℕ → Bytes → Result (Error F) ApRep
  build_ap_rep_with_confounder enc_part key kvno confounder =
      bind (map_err (Error.encode (codes "EncApRepPart")) (p.encode_enc_ap_rep_part_der enc_part))
        λ plaintext.
          bind (ok_or (from_etype_id key.etype) (Error.unsupported_etype key.etype)) λ etype.
            bind
              (map_err Error.crypto (
                p.ciphers.encrypt_message_with_confounder etype key.value plaintext
                  ap_rep_encpart_usage confounder))
              λ cipher. ok (record {
                pvno = krb5_pvno;
                msg_type = krb_ap_rep_msg_type;
                enc_part = record { etype = key.etype; kvno = kvno; cipher = cipher };
              })

  unfoldable pub encode_build_ap_rep_with_confounder :
      EncApRepPart → EncryptionKey → Option ℕ → Bytes → Result (Error F) Bytes
  unfolding build_ap_rep_with_confounder encode_ap_rep
  encode_build_ap_rep_with_confounder enc_part key kvno confounder =
      bind (build_ap_rep_with_confounder enc_part key kvno confounder)
        λ ap_rep. encode_ap_rep ap_rep

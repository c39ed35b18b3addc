-- ===== src/Spnego/Initiator.antt =====
-- The initiator's side of an AP-REP in src/spnego.rs.
use rskrb.Prelude.{ℕ, suc, ◌+◌, ◌*◌, ◌||◌, not, Option, none, some, ltb, ◌==◌, if◌then◌else◌}
use rskrb.Prelude.Int.{ℤ, pos, negsuc}
use rskrb.Prelude.Text.{codes}
use rskrb.Result.{Result, ok, err, bind, map_err}
use rskrb.Wire.{Bytes, ok_or}
use rskrb.Keytab.{EncryptionKey}
use rskrb.Service.{KerberosTime, RasnEncryptionKey}
use rskrb.Service.Time.{SystemTime, second, unix_epoch, checked_add, checked_sub}
use rskrb.Spnego.{Error}
use rskrb.ApRep as ApRep
use rskrb.ApRep.{Replies, EncApRepPart, decode_ap_rep, decrypt_ap_rep_enc_part}

-- The fields of `InitiatorContext` that the verification reads.
pub record InitiatorContext : Type 0 where
  pub session_key : EncryptionKey
  pub authenticator_ctime : SystemTime
  pub authenticator_cusec : ℕ
  pub authenticator_time : SystemTime

pub record VerifiedApRep : Type 0 where
  pub ctime : SystemTime
  pub cusec : ℕ
  pub authenticator_time : SystemTime
  pub subkey : Option EncryptionKey
  pub sequence_number : Option ℕ

-- `encryption_key_from_rasn` under `map`.
abbrev pub optional_subkey : Option RasnEncryptionKey → Option EncryptionKey
optional_subkey none = none
optional_subkey (some key) = some (record { etype = key.etype; value = key.value })

module _ {F : Type 0} where
  unfoldable pub ap_rep_error : ApRep.Error F → Error F
  ap_rep_error (ApRep.Error.decode target message) = Error.decode target message
  ap_rep_error (ApRep.Error.encode target message) = Error.encode target message
  ap_rep_error (ApRep.Error.invalid_message field expected actual) =
      Error.invalid_message field expected actual
  ap_rep_error (ApRep.Error.unsupported_etype etype) = Error.unsupported_etype etype
  ap_rep_error (ApRep.Error.key_etype_mismatch key_etype encrypted_data_etype) =
      Error.ap_rep_key_etype_mismatch key_etype encrypted_data_etype
  ap_rep_error (ApRep.Error.crypto source) = Error.crypto source

  unfoldable pub integer_to_u32 : Replies F → Bytes → ℤ → Result (Error F) ℕ
  integer_to_u32 p field (pos n) =
      if ltb n 0x100000000
      then ok n
      else err (Error.integer_out_of_range field (p.to_string (pos n)))
  integer_to_u32 p field (negsuc n) =
      err (Error.integer_out_of_range field (p.to_string (negsuc n)))

  unfoldable pub system_time_from_kerberos_time : KerberosTime → Result (Error F) SystemTime
  system_time_from_kerberos_time time = elim time.timestamp [
    | pos seconds ↦
        ok_or (checked_add unix_epoch (seconds * second + time.subsec_nanos)) Error.time_overflow
    | negsuc n ↦
        ok_or (checked_sub unix_epoch (suc n * second + time.subsec_nanos)) Error.time_overflow
  ]

  -- The end of `verify_ap_rep`.
  abbrev pub check_times :
      InitiatorContext → EncApRepPart → SystemTime → ℕ → SystemTime → Result (Error F) VerifiedApRep
  check_times context enc_part ctime cusec authenticator_time =
      if not (ctime == context.authenticator_ctime) || not (cusec == context.authenticator_cusec)
      then err (Error.ap_rep_timestamp_mismatch context.authenticator_time authenticator_time)
      else ok (record {
        ctime = ctime;
        cusec = cusec;
        authenticator_time = authenticator_time;
        subkey = optional_subkey enc_part.subkey;
        sequence_number = enc_part.seq_number;
      })

  -- `InitiatorContext::verify_ap_rep`
  unfoldable pub verify_ap_rep :
      Replies F → InitiatorContext → Bytes → Result (Error F) VerifiedApRep
  unfolding ap_rep_error
  verify_ap_rep p context bytes = bind (map_err ap_rep_error (decode_ap_rep p bytes)) λ ap_rep.
      bind (map_err ap_rep_error (decrypt_ap_rep_enc_part p ap_rep context.session_key)) λ enc_part.
        bind (system_time_from_kerberos_time enc_part.ctime) λ ctime.
          bind (integer_to_u32 p (codes "ap-rep.cusec") enc_part.cusec) λ cusec.
            bind (ok_or (checked_add ctime (cusec * 1000)) Error.time_overflow)
              λ authenticator_time. check_times context enc_part ctime cusec authenticator_time

-- ===== src/Spnego/MutualAuthentication.antt =====
-- An AP-REP of src/ap_rep.rs, verified by the initiator of src/spnego.rs.
use rskrb.Prelude.{
  ℕ, ◌+◌, ◌*◌, ◌<◌, ◌≡◌, refl, true, inl, inr, Bool-cases, ◌&&◌, Option, some, ltb, ◌==◌,
  if◌then◌else◌, arith,
}
use rskrb.Prelude.Int.{ℤ, pos, int_eq, int_eq_iff}
use rskrb.Result.{Result, ok, err, bind, map_err}
use rskrb.Wire.{Bytes}
use rskrb.Keytab.{EncryptionKey}
use rskrb.Service.Messages.{KerberosEtype, from_etype_id}
use rskrb.Service.Time.{SystemTime, time_end}
use rskrb.Spnego.{Error}
use rskrb.Spnego.Initiator.{
  InitiatorContext, VerifiedApRep, check_times, ap_rep_error, optional_subkey, integer_to_u32,
  system_time_from_kerberos_time, verify_ap_rep,
}
use rskrb.ApRep.{
  ApRep, EncApRepPart, Replies, krb5_pvno, krb_ap_rep_msg_type, ap_rep_encpart_usage,
  validate_integer, validate_ap_rep, decode_ap_rep, encode_ap_rep, decode_enc_ap_rep_part,
  decrypt_ap_rep_enc_part, build_ap_rep_with_confounder, encode_build_ap_rep_with_confounder,
}

-- The message that is built.
abbrev pub reply_of : EncryptionKey → Option ℕ → Bytes → ApRep
reply_of key kvno cipher = record {
  pvno = krb5_pvno;
  msg_type = krb_ap_rep_msg_type;
  enc_part = record { etype = key.etype; kvno = kvno; cipher = cipher };
}

int_eq_refl : (n : ℤ) → int_eq n n ≡ true
int_eq_refl n = (int_eq_iff n n).1 refl

module _ {F : Type 0} (p : Replies F) where
  -- The acceptor's reply as the initiator sees it.
  abbrev pub mutual_exchange :
      InitiatorContext → EncApRepPart → Option ℕ → Bytes → Result (Error F) VerifiedApRep
  mutual_exchange context enc_part kvno confounder =
      bind
        (map_err ap_rep_error
          (encode_build_ap_rep_with_confounder p enc_part context.session_key kvno confounder))
        λ bytes. verify_ap_rep p context bytes

  check_times-matching :
      (context : InitiatorContext) (enc_part : EncApRepPart) (ctime cusec time : ℕ)
      → check_times {F = F} context enc_part ctime cusec time ≡ (
          if ctime == context.authenticator_ctime && cusec == context.authenticator_cusec
          then ok (record {
            ctime = ctime;
            cusec = cusec;
            authenticator_time = time;
            subkey = optional_subkey enc_part.subkey;
            sequence_number = enc_part.seq_number;
          })
          else err (Error.ap_rep_timestamp_mismatch context.authenticator_time time))
  check_times-matching context enc_part ctime cusec time =
      elim (Bool-cases (ctime == context.authenticator_ctime)) [
        | inl same ↦ elim (Bool-cases (cusec == context.authenticator_cusec)) [
          | inl same' ↦ rw (same, same') refl
          | inr other ↦ rw (same, other) refl
        ]
        | inr other ↦ rw (other) refl
      ]

  -- The initiator accepts the reply that the acceptor built with the session key exactly if the reply
  -- has the time of the initiator's authenticator, and then has its fields; otherwise it reports the two
  -- times. The codec reads back the two values that it writes, the cipher opens what it sealed, and the
  -- time of the reply is representable.
  pub mutual_exchange_lem :
      (context : InitiatorContext) (enc_part : EncApRepPart) (kvno : Option ℕ)
      (confounder plaintext cipher bytes : Bytes) (etype : KerberosEtype) (ctime : SystemTime)
      (cusec : ℕ)
      → from_etype_id context.session_key.etype ≡ some etype
      → p.encode_enc_ap_rep_part_der enc_part ≡ ok plaintext
      → p.decode_enc_ap_rep_part_der plaintext ≡ ok enc_part
      → p.ciphers.encrypt_message_with_confounder etype context.session_key.value plaintext
          ap_rep_encpart_usage confounder
        ≡ ok cipher
      → p.ciphers.decrypt_message etype context.session_key.value cipher ap_rep_encpart_usage
        ≡ ok plaintext
      → p.encode_ap_rep_der (reply_of context.session_key kvno cipher) ≡ ok bytes
      → p.decode_ap_rep_der bytes ≡ ok (reply_of context.session_key kvno cipher)
      → system_time_from_kerberos_time {F = F} enc_part.ctime ≡ ok ctime
      → enc_part.cusec ≡ pos cusec
      → cusec < 0x100000000
      → ctime + cusec * 1000 < time_end
      → mutual_exchange context enc_part kvno confounder ≡ (
          if ctime == context.authenticator_ctime && cusec == context.authenticator_cusec
          then ok (record {
            ctime = ctime;
            cusec = cusec;
            authenticator_time = ctime + cusec * 1000;
            subkey = optional_subkey enc_part.subkey;
            sequence_number = enc_part.seq_number;
          })
          else err
              (Error.ap_rep_timestamp_mismatch context.authenticator_time (ctime + cusec * 1000)))
  unfolding encode_build_ap_rep_with_confounder build_ap_rep_with_confounder encode_ap_rep
      verify_ap_rep decode_ap_rep validate_ap_rep validate_integer decrypt_ap_rep_enc_part
      decode_enc_ap_rep_part integer_to_u32
  mutual_exchange_lem context enc_part kvno confounder plaintext cipher bytes etype ctime cusec
        known e e' closed opened w w' t n small fits =
      let small' : ltb cusec 0x100000000 ≡ true = ground arith in
      let fits' : ltb (ctime + cusec * 1000) time_end ≡ true = ground arith in
      rw
        (
          e,
          known,
          closed,
          w,
          w',
          int_eq_refl context.session_key.etype,
          opened,
          e',
          t,
          n,
          small',
          fits',
        )
        (check_times-matching context enc_part ctime cusec (ctime + cusec * 1000))

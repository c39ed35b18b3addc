-- ===== src/Tests/Replies.antt =====
-- An AP-REP over a codec of three bytes and a cipher that puts its confounder in front.
use rskrb.Prelude.{ℕ, ◌+◌, ◌*◌, ◌≡◌, refl, [], ◌∷◌, ◌++◌, none, some, drop, arith}
use rskrb.Prelude.Int.{pos, pos_part}
use rskrb.Result.{Result, ok, err}
use rskrb.Wire.{Bytes}
use rskrb.Keytab.{EncryptionKey}
use rskrb.Service.Messages.{sha1_aes256, from_etype_id}
use rskrb.Service.Time.{unix_epoch}
use rskrb.Spnego as Spnego
use rskrb.Spnego.Initiator.{InitiatorContext, system_time_from_kerberos_time}
use rskrb.Spnego.MutualAuthentication.{reply_of, mutual_exchange, mutual_exchange_lem}
use rskrb.ApRep.{EncApRepPart, Replies}

abbrev key : EncryptionKey
key = record { etype = pos 18; value = [] }

abbrev part : ℕ → ℕ → EncApRepPart
part seconds cusec = record {
  ctime = record { timestamp = pos seconds; subsec_nanos = 0 };
  cusec = pos cusec;
  subkey = none;
  seq_number = some 7;
}

abbrev decode_part : Bytes → Result Bytes EncApRepPart
decode_part (seconds ∷ cusec ∷ []) = ok (part seconds cusec)
decode_part _ = err []

abbrev replies : Replies ℕ
replies = record {
  encode_ap_rep_der = λ reply. ok reply.enc_part.cipher;
  decode_ap_rep_der = λ bytes. ok (reply_of key none bytes);
  encode_enc_ap_rep_part_der =
      λ enc_part. ok (pos_part enc_part.ctime.timestamp ∷ pos_part enc_part.cusec ∷ []);
  decode_enc_ap_rep_part_der = decode_part;
  ciphers = record {
    checksum = λ etype key bytes usage. ok [];
    encrypt_message_with_confounder =
        λ etype key plaintext usage confounder. ok (confounder ++ plaintext);
    decrypt_message = λ etype key ciphertext usage. ok (drop 2 ciphertext);
  };
  to_string = λ n. pos_part n ∷ [];
}

abbrev context : ℕ → InitiatorContext
context cusec = record {
  session_key = key;
  authenticator_ctime = unix_epoch + 3000000000;
  authenticator_cusec = cusec;
  authenticator_time = unix_epoch + 3000000000 + cusec * 1000;
}

mutual_exchange_lem_example :
    mutual_exchange replies (context 5) (part 3 5) none (1 ∷ 2 ∷ [])
    ≡ ok (record {
      ctime = unix_epoch + 3000000000;
      cusec = 5;
      authenticator_time = unix_epoch + 3000005000;
      subkey = none;
      sequence_number = some 7;
    })
unfolding from_etype_id system_time_from_kerberos_time
mutual_exchange_lem_example =
    mutual_exchange_lem replies (context 5) (part 3 5) none (1 ∷ 2 ∷ []) (3 ∷ 5 ∷ [])
      (1 ∷ 2 ∷ 3 ∷ 5 ∷ []) (1 ∷ 2 ∷ 3 ∷ 5 ∷ []) sha1_aes256 (unix_epoch + 3000000000) 5 refl refl
      refl refl refl refl refl refl refl (omega arith) (omega arith)

-- A reply to another request of the same key.
stale :
    mutual_exchange replies (context 6) (part 3 5) none (1 ∷ 2 ∷ [])
    ≡ err
        (Spnego.Error.ap_rep_timestamp_mismatch (unix_epoch + 3000006000) (unix_epoch + 3000005000))
unfolding from_etype_id system_time_from_kerberos_time
stale =
    mutual_exchange_lem replies (context 6) (part 3 5) none (1 ∷ 2 ∷ []) (3 ∷ 5 ∷ [])
      (1 ∷ 2 ∷ 3 ∷ 5 ∷ []) (1 ∷ 2 ∷ 3 ∷ 5 ∷ []) sha1_aes256 (unix_epoch + 3000000000) 5 refl refl
      refl refl refl refl refl refl refl (omega arith) (omega arith)

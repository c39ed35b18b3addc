-- ===== src/Gss/MicRoundTrip.antt =====
-- `MicToken` of src/spnego.rs as bytes and back, and what its checksum covers.
use rskrb.Prelude.{
  ℕ, ◌^◌, ◌<◌, ◌≡◌, ◌↔◌, inl, inr, refl, Bool, true, false, ◌++◌, none, some, arith, Bool-cases,
}
use rskrb.Result.{Result, ok, bind}
use rskrb.Wire.{Bytes}
use rskrb.Keytab.{EncryptionKey}
use rskrb.Service.Messages.{KerberosEtype, from_etype_id}
use rskrb.Spnego.{Error}
use rskrb.Gss.{
  Ciphers, sent_by_acceptor, validate_gss_token_id, validate_gss_sender,
  gssapi_initiator_sign_usage,
}
use rskrb.Gss.Mic.{
  MicToken, checksum_header, decode_mic, encode_mic, compute_mic_checksum, verify_mic,
  new_initiator_mic, set_mic_checksum, mic_with_payload, new_mic,
}
use rskrb.Gss.Comparison.{constant_time_eq_iff}
use rskrb.Gss.Headers.{take-be_bytes, drop-be_bytes, length-be_bytes-append, big_endian-seq_num}

-- The token that arrives: the payload is not sent.
abbrev pub sent_mic : MicToken → Bytes → MicToken
sent_mic token checksum = record token { payload = none; checksum = some checksum }

module _ {F : Type 0} where
  pub sender-agrees :
      (flags : ℕ) → validate_gss_sender {F = F} flags (sent_by_acceptor flags) ≡ ok tt
  unfolding validate_gss_sender
  sender-agrees flags = elim (Bool-cases (sent_by_acceptor flags)) [
    | inl e ↦ rw e refl
    | inr e ↦ rw e refl
  ]

  decode_mic-checksum_header :
      (token : MicToken) (checksum : Bytes)
      → token.snd_seq_num < 2 ^ 64
      → decode_mic {F = F} (checksum_header token ++ checksum) (sent_by_acceptor token.flags)
        ≡ ok (sent_mic token checksum)
  unfolding decode_mic checksum_header validate_gss_token_id
  decode_mic-checksum_header token checksum h =
      rw
        (
          length-be_bytes-append token.snd_seq_num checksum,
          take-be_bytes token.snd_seq_num checksum,
          drop-be_bytes token.snd_seq_num checksum,
          big_endian-seq_num token.snd_seq_num h,
          sender-agrees token.flags,
        )
        (ground arith)

  pub decode_mic-encode_mic :
      (token : MicToken) (checksum bytes : Bytes)
      → token.snd_seq_num < 2 ^ 64
      → token.checksum ≡ some checksum
      → encode_mic {F = F} token ≡ ok bytes
      → decode_mic {F = F} bytes (sent_by_acceptor token.flags) ≡ ok (sent_mic token checksum)
  unfolding encode_mic
  decode_mic-encode_mic token checksum bytes h e written =
      let same : bytes ≡ checksum_header token ++ checksum = ground (arith, e) in
      rw same (decode_mic-checksum_header token checksum h)

  -- The token verifies exactly if its checksum is the one that is computed.
  verify_mic_iff :
      (ciphers : Ciphers F) (token : MicToken) (key : EncryptionKey) (key_usage : ℕ)
      (expected actual : Bytes)
      → compute_mic_checksum ciphers token key key_usage ≡ ok expected
      → token.checksum ≡ some actual
      → (verify_mic ciphers token key key_usage ≡ ok true) ↔ (expected ≡ actual)
  unfolding verify_mic
  verify_mic_iff ciphers token key key_usage expected actual computed e =
      ground (arith, constant_time_eq_iff expected actual)

  -- A message signed and sent, and the token verified with the message that arrived.
  abbrev pub mic_exchange : Ciphers F → Bytes → Bytes → EncryptionKey → Result (Error F) Bool
  mic_exchange ciphers payload arrived key = bind (new_initiator_mic ciphers payload key) λ token.
      bind (encode_mic token) λ bytes.
        bind (decode_mic bytes false)
          λ sent. verify_mic ciphers (mic_with_payload sent arrived) key gssapi_initiator_sign_usage

  -- The checksum of an initiator's message.
  abbrev pub initiator_checksum : Ciphers F → KerberosEtype → Bytes → Bytes → Result F Bytes
  initiator_checksum ciphers etype key payload =
      ciphers.checksum etype key (payload ++ checksum_header (new_mic 0 0))
        gssapi_initiator_sign_usage

  compute_initiator :
      (ciphers : Ciphers F) (key : EncryptionKey) (etype : KerberosEtype) (payload expected : Bytes)
      (token : MicToken)
      → from_etype_id key.etype ≡ some etype
      → initiator_checksum ciphers etype key.value payload ≡ ok expected
      → token.flags ≡ 0
      → token.snd_seq_num ≡ 0
      → token.payload ≡ some payload
      → compute_mic_checksum ciphers token key gssapi_initiator_sign_usage ≡ ok expected
  unfolding compute_mic_checksum checksum_header
  compute_initiator ciphers key etype payload expected token known sum e e' e'' =
      rw (e, e', e'', known, sum) refl

  -- A message is signed by the initiator, the token sent, and verified with the message that arrived:
  -- verification succeeds exactly if the two messages have the same checksum. Both checksums can be
  -- computed and the key has a known encryption type.
  pub mic_exchange_iff :
      (ciphers : Ciphers F) (key : EncryptionKey) (etype : KerberosEtype)
      (payload arrived sum sum' : Bytes)
      → from_etype_id key.etype ≡ some etype
      → initiator_checksum ciphers etype key.value payload ≡ ok sum
      → initiator_checksum ciphers etype key.value arrived ≡ ok sum'
      → (mic_exchange ciphers payload arrived key ≡ ok true) ↔ (sum' ≡ sum)
  unfolding new_initiator_mic set_mic_checksum encode_mic
  mic_exchange_iff ciphers key etype payload arrived sum sum' known signed verified =
      let token = mic_with_payload (new_mic 0 0) payload in
      let sent = sent_mic token sum in
      rw
        (
          compute_initiator ciphers key etype payload sum token known signed refl refl refl,
          decode_mic-checksum_header (record token { checksum = some sum }) sum (omega arith),
        )
        (verify_mic_iff ciphers (mic_with_payload sent arrived) key gssapi_initiator_sign_usage sum'
          sum
          (compute_initiator ciphers key etype arrived sum' (mic_with_payload sent arrived) known
            verified refl refl refl)
          refl)

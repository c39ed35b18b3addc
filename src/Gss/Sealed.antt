-- ===== src/Gss/Sealed.antt =====
-- A sealed token of src/spnego.rs from one side to the other.
use rskrb.Prelude.{
  ℕ, zero, suc, ◌+◌, ◌-◌, ◌<◌, ◌≡◌, refl, sym, ap, ◌∙◌, true, false, ◌++◌, none, some, ltb, length,
  drop, arith, length-append, take-append, drop-append, append_assoc,
}
use rskrb.Prelude.Text.{text_eq_iff}
use rskrb.Result.{Result, ok, bind, bind_assoc}
use rskrb.Wire.{Bytes}
use rskrb.Keytab.{EncryptionKey}
use rskrb.Service.Messages.{KerberosEtype, from_etype_id}
use rskrb.Spnego.{Error}
use rskrb.Spnego.Writer.{be_bytes}
use rskrb.Gss.{Ciphers, sent_by_acceptor, has_sealed, wrap_header}
use rskrb.Gss.Wrap.{
  WrapToken, seal, header, zeros, rotate_right, decode_wrap, encode_wrap, decrypt_payload,
  encrypt_payload_with_confounder,
}
use rskrb.Gss.Rotation.{rotate_left-rotate_right, length-rotate_right}
use rskrb.Gss.WrapRoundTrip.{Fits, decode_wrap-sealed}

seal-flags :
    (flags : ℕ)
    → (has_sealed (seal flags) ≡ true) × (sent_by_acceptor (seal flags) ≡ sent_by_acceptor flags)
seal-flags flags = ground arith

-- The token that is sealed.
abbrev pub sealed_of : WrapToken → WrapToken
sealed_of token = record token { flags = seal token.flags }

-- What is encrypted.
abbrev pub sealed_text : WrapToken → Bytes → Bytes
sealed_text token payload = payload ++ (zeros token.ec ++ header (sealed_of token) 0)

pub length-zeros : (count : ℕ) → length (zeros count) ≡ count
length-zeros zero = refl
length-zeros (suc count) = ap suc (length-zeros count)

length-header_zero : (token : WrapToken) → length (header token 0) ≡ 16
unfolding wrap_header be_bytes
length-header_zero token = refl

-- The parts of what is encrypted.
module _ (token : WrapToken) (payload : Bytes) where
  length-sealed_text : length (sealed_text token payload) ≡ length payload + (token.ec + 16)
  length-sealed_text = omega (
    arith,
    length-append payload (zeros token.ec ++ header (sealed_of token) 0),
    length-append (zeros token.ec) (header (sealed_of token) 0),
    length-zeros token.ec,
    length-header_zero (sealed_of token),
  )

  header-sealed_text :
      drop (length payload + token.ec) (sealed_text token payload) ≡ header (sealed_of token) 0
  header-sealed_text =
      let front = payload ++ zeros token.ec in
      let size : length front ≡ length payload + token.ec =
        omega (arith, length-append payload (zeros token.ec), length-zeros token.ec) in
      rw (← append_assoc payload (zeros token.ec) (header (sealed_of token) 0), ← size)
        (drop-append front (header (sealed_of token) 0))

module _ {F : Type 0} (ciphers : Ciphers F) (key : EncryptionKey) (etype : KerberosEtype)
    (key_usage : ℕ) where
  -- Sealed by one side, opened by the other.
  abbrev pub sealed_exchange : WrapToken → Bytes → Result (Error F) Bytes
  sealed_exchange token confounder =
      bind (encrypt_payload_with_confounder ciphers token key key_usage confounder) λ sealed.
        bind (encode_wrap sealed) λ bytes.
          bind (decode_wrap bytes (sent_by_acceptor token.flags))
            λ arrived. decrypt_payload ciphers arrived key key_usage

  decrypt_payload-sealed_text :
      (token : WrapToken) (payload encrypted : Bytes)
      → from_etype_id key.etype ≡ some etype
      → ciphers.decrypt_message etype key.value encrypted key_usage ≡ ok (sealed_text token payload)
      → decrypt_payload ciphers
          (record (sealed_of token) {
            payload = none;
            checksum = none;
            encrypted_body = some (rotate_right encrypted token.rrc);
          })
          key
          key_usage
        ≡ ok payload
  unfolding decrypt_payload
  decrypt_payload-sealed_text token payload encrypted known opened =
      let text = sealed_text token payload in
      let n = length payload in
      let enough : ltb (n + (token.ec + 16)) (16 + token.ec) ≡ false = ground arith in
      let start : n + (token.ec + 16) - 16 ≡ n + token.ec = omega arith in
      let stop : n + (token.ec + 16) - (16 + token.ec) ≡ n = omega arith in
      rw
        (
          (seal-flags token.flags).0,
          rotate_left-rotate_right encrypted token.rrc,
          known,
          opened,
          length-sealed_text token payload,
          enough,
          start,
          stop,
          header-sealed_text token payload,
          (text_eq_iff (header (sealed_of token) 0) (header (sealed_of token) 0)).1 refl,
          take-append payload (zeros token.ec ++ header (sealed_of token) 0),
        )
        refl

  -- A payload is sealed in a fresh token, the token written, read and opened: the payload comes out, for any
  -- extra count and any rotation that fit their widths. The cipher encrypts the text of the token to some
  -- bytes and decrypts them to that text, and the encryption type is known.
  pub sealed_exchange_lem :
      (token : WrapToken) (payload confounder encrypted : Bytes)
      → Fits token
      → token.encrypted_body ≡ none
      → token.payload ≡ some payload
      → from_etype_id key.etype ≡ some etype
      → ciphers.encrypt_message_with_confounder etype key.value
          (sealed_text token payload)
          key_usage
          confounder
        ≡ ok encrypted
      → ciphers.decrypt_message etype key.value encrypted key_usage ≡ ok (sealed_text token payload)
      → 0 < length encrypted
      → sealed_exchange token confounder ≡ ok payload
  unfolding encrypt_payload_with_confounder
  sealed_exchange_lem token payload confounder encrypted fits fresh given known closed opened
        some_bytes =
      let body = rotate_right encrypted token.rrc in
      let sealed = record (sealed_of token) {
        payload = some payload;
        checksum = none;
        encrypted_body = some body;
      } in
      let sent = rw ((seal-flags token.flags).1) at (
        decode_wrap-sealed {F = F} sealed body fits (seal-flags token.flags).0 refl
          (omega (arith, length-rotate_right encrypted token.rrc))) in
      rw (fresh, given, known, closed)
        (sym (
            bind_assoc (encode_wrap {F = F} sealed)
              (λ bytes. decode_wrap bytes (sent_by_acceptor token.flags))
              (λ arrived. decrypt_payload ciphers arrived key key_usage))
          ∙ rw sent (decrypt_payload-sealed_text token payload encrypted known opened))

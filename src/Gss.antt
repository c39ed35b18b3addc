-- ===== src/Gss.antt =====
-- The tokens of RFC 4121 in src/spnego.rs: the data and the constants. `flags & 1` and `flags & 2`
-- are written by division.
pub mod Mic
pub mod Wrap
pub mod Comparison
pub mod Rotation
pub mod Headers
pub mod MicRoundTrip
pub mod WrapRoundTrip
pub mod Sealed
pub mod ContextFlags
use rskrb.Prelude.{
  ℕ, ◌/◌, ◌%◌, Bool, true, false, not, List, [], ◌∷◌, ◌++◌, Option, none, some, ◌==◌, if◌then◌else◌,
  length, take, drop, get_or,
}
use rskrb.Prelude.Text.{text_eq}
use rskrb.Result.{Result, ok, err, bind}
use rskrb.Wire.{Bytes, big, to_bytes16}
use rskrb.Service.Messages.{
  KerberosEtype, sha1_aes128, sha1_aes256, sha2_aes128, sha2_aes256, des3_cbc_sha1_kd, rc4_hmac,
}
use rskrb.Spnego.{Error, invalid_gss_token_id, unexpected_gss_token_sender}
use rskrb.Spnego.Writer.{be_bytes}

-- What is called of an encryption type in src/crypto.rs.
pub record Ciphers (F : Type 0) : Type 0 where
  pub checksum : KerberosEtype → Bytes → Bytes → ℕ → Result F Bytes
  pub encrypt_message_with_confounder : KerberosEtype → Bytes → Bytes → ℕ → Bytes → Result F Bytes
  pub decrypt_message : KerberosEtype → Bytes → Bytes → ℕ → Result F Bytes

abbrev pub hmac_len : KerberosEtype → ℕ
hmac_len sha1_aes128 = 12
hmac_len sha1_aes256 = 12
hmac_len sha2_aes128 = 16
hmac_len sha2_aes256 = 24
hmac_len des3_cbc_sha1_kd = 20
hmac_len rc4_hmac = 16

abbrev pub tok_id_gss_mic : Bytes
tok_id_gss_mic = 0x04 ∷ 0x04 ∷ []

abbrev pub tok_id_gss_wrap : Bytes
tok_id_gss_wrap = 0x05 ∷ 0x04 ∷ []

abbrev pub gss_mic_filler : Bytes
gss_mic_filler = 0xff ∷ 0xff ∷ 0xff ∷ 0xff ∷ 0xff ∷ []

abbrev pub gss_wrap_filler : ℕ
gss_wrap_filler = 0xff

abbrev pub gss_token_flag_sealed : ℕ
gss_token_flag_sealed = 2

abbrev pub gssapi_initiator_seal_usage : ℕ
gssapi_initiator_seal_usage = 24

abbrev pub gssapi_initiator_sign_usage : ℕ
gssapi_initiator_sign_usage = 25

-- `flags & GSS_TOKEN_FLAG_SENT_BY_ACCEPTOR != 0`
abbrev pub sent_by_acceptor : ℕ → Bool
sent_by_acceptor flags = flags % 2 == 1

-- `flags & GSS_TOKEN_FLAG_SEALED != 0`
abbrev pub has_sealed : ℕ → Bool
has_sealed flags = flags / 2 % 2 == 1

abbrev pub bool_eq : Bool → Bool → Bool
bool_eq true b = b
bool_eq false b = not b

unfoldable pub wrap_header : ℕ → ℕ → ℕ → ℕ → Bytes
wrap_header flags ec rrc snd_seq_num =
    tok_id_gss_wrap
    ++ (flags
        ∷ gss_wrap_filler
        ∷ (to_bytes16 big ec ++ (to_bytes16 big rrc ++ be_bytes 8 snd_seq_num)))

module _ {F : Type 0} where
  unfoldable pub validate_gss_token_id : Bytes → Bytes → Result (Error F) (Unit {0})
  unfolding text_eq
  validate_gss_token_id actual expected =
      if not (text_eq actual expected) then err (invalid_gss_token_id expected actual) else ok tt

  unfoldable pub validate_gss_sender : ℕ → Bool → Result (Error F) (Unit {0})
  validate_gss_sender flags expect_from_acceptor =
      if not (bool_eq (sent_by_acceptor flags) expect_from_acceptor)
      then err (unexpected_gss_token_sender expect_from_acceptor (sent_by_acceptor flags))
      else ok tt

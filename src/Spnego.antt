-- ===== src/Spnego.antt =====
-- The DER values of src/spnego/der.rs and src/spnego/oid.rs and the tokens of src/spnego.rs: the
-- data. A `DerReader` is the bytes that are left of its slice: each of its reads takes the bytes in
-- front and returns the others.
pub mod Oid
pub mod Reader
pub mod Writer
pub mod Values
pub mod Arcs
pub mod Krb5
pub mod MechRoundTrip
pub mod Negotiation
pub mod Decoding
pub mod Encoding
pub mod Acceptor
pub mod Fields
pub mod Layout
pub mod InitRoundTrip
pub mod RespRoundTrip
pub mod RoundTrip
pub mod Exchange
pub mod Termination
pub mod Decoded
pub mod Initiator
pub mod MutualAuthentication
use rskrb.Prelude.{ℕ, Bool, List, [], ◌∷◌, Option}
use rskrb.Prelude.Int.{ℤ}
use rskrb.Wire.{Bytes}

-- The arcs.
abbrev pub ObjectIdentifier : Type 0
ObjectIdentifier = List ℕ

-- The variants of `Error` that the tokens raise. `F` is the type of the errors of the ciphers.
pub data Error (F : Type 0) : Type 0 where
  empty_input : Error F
  truncated_der : Error F
  high_tag_number : Error F
  indefinite_length : Error F
  length_exceeds_input : Error F
  unexpected_tag : ℕ → ℕ → Error F
  trailing_data : Error F
  invalid_oid : Error F
  invalid_oid_encoding : Error F
  unexpected_spnego_oid : ObjectIdentifier → Error F
  unsupported_mechanism : ObjectIdentifier → Error F
  unknown_krb5_token_id : Bytes → Error F
  missing_kerberos_message : Error F
  gss_token_too_short : ℕ → ℕ → Error F
  invalid_gss_token_id : Bytes → Bytes → Error F
  unexpected_gss_token_sender : Bool → Bool → Error F
  invalid_gss_filler : Error F
  missing_gss_payload : Error F
  missing_gss_checksum : Error F
  gss_checksum_already_set : Error F
  missing_gss_encrypted_body : Error F
  gss_encrypted_body_already_set : Error F
  sealed_gss_token_needs_encryption : Error F
  gss_token_not_sealed : Error F
  invalid_gss_checksum_length : ℕ → ℕ → Error F
  inconsistent_wrap_checksum_length : ℕ → ℕ → Error F
  gss_checksum_mismatch : Error F
  gss_decrypted_token_too_short : ℕ → ℕ → Error F
  invalid_gss_encrypted_header : Error F
  missing_mech_types : Error F
  missing_mech_token : Error F
  missing_ap_req : Error F
  wrong_negotiation_token : Bytes → Bytes → Error F
  invalid_neg_state : ℕ → Error F
  invalid_integer : Error F
  unsupported_etype : ℤ → Error F
  decode : Bytes → Bytes → Error F
  encode : Bytes → Bytes → Error F
  invalid_message : Bytes → ℤ → Bytes → Error F
  ap_rep_key_etype_mismatch : ℤ → ℤ → Error F
  integer_out_of_range : Bytes → Bytes → Error F
  time_overflow : Error F
  ap_rep_timestamp_mismatch : ℕ → ℕ → Error F
  crypto : F → Error F

pub record Tlv : Type 0 where
  pub tag : ℕ
  pub value : Bytes

abbrev pub tag_sequence : ℕ
tag_sequence = 0x30

abbrev pub tag_object_identifier : ℕ
tag_object_identifier = 0x06

abbrev pub tag_octet_string : ℕ
tag_octet_string = 0x04

abbrev pub tag_bit_string : ℕ
tag_bit_string = 0x03

abbrev pub tag_enumerated : ℕ
tag_enumerated = 0x0a

abbrev pub tag_application_0 : ℕ
tag_application_0 = 0x60

abbrev pub tag_context_0 : ℕ
tag_context_0 = 0xa0

abbrev pub tag_context_1 : ℕ
tag_context_1 = 0xa1

abbrev pub tag_context_2 : ℕ
tag_context_2 = 0xa2

abbrev pub tag_context_3 : ℕ
tag_context_3 = 0xa3

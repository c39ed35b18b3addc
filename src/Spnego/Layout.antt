-- ===== src/Spnego/Layout.antt =====
-- The bytes of the negotiation tokens of src/spnego.rs.
use rskrb.Prelude.{
  ℕ, ◌%◌, ◌^◌, ◌<◌, ◌≡◌, ◌≢◌, [], ◌++◌, Option, none, some, append-nil, arith, length, All,
}
use rskrb.Result.{ok}
use rskrb.Wire.{Bytes}
use rskrb.Spnego.{
  ObjectIdentifier, tag_sequence, tag_object_identifier, tag_octet_string, tag_application_0,
  tag_context_0, tag_context_1, tag_context_2, tag_context_3,
}
use rskrb.Spnego.Oid.{spnego}
use rskrb.Spnego.Reader.{read_tlv, read_single_tlv}
use rskrb.Spnego.Writer.{encode_tlv}
use rskrb.Spnego.Values.{read_tlv-encode_tlv, read_single_tlv-encode_tlv, length-encode_tlv}
use rskrb.Spnego.Arcs.{IsOid, oid_bytes}
use rskrb.Spnego.Negotiation.{NegTokenInit, NegTokenResp, NegotiationToken, init_token, resp_token}
use rskrb.Spnego.Encoding.{optional_field, init_sequence, encode_state}
use rskrb.Spnego.Fields.{oids_bytes}

-- The identifiers of a token, one at least in the first kind of token.
abbrev pub IsToken : NegotiationToken → Type 0
IsToken (init_token token) = (0 < length token.mech_types) × All IsOid token.mech_types
IsToken (resp_token token) = elim token.supported_mech [ none ↦ Unit {0} | some oid ↦ IsOid oid ]

abbrev pub oid_tlv : ObjectIdentifier → Bytes
oid_tlv oid = encode_tlv tag_object_identifier (oid_bytes oid)

abbrev pub mech_field : Option ObjectIdentifier → Bytes
mech_field none = []
mech_field (some oid) = encode_tlv tag_context_1 (oid_tlv oid)

abbrev pub resp_sequence : NegTokenResp → Bytes
resp_sequence token =
    encode_state token.neg_state
    ++ (mech_field token.supported_mech
        ++ (optional_field tag_context_2 tag_octet_string token.response_token
            ++ optional_field tag_context_3 tag_octet_string token.mech_list_mic))

abbrev pub init_bytes : NegTokenInit → Bytes
init_bytes token =
    encode_tlv tag_context_0
      (encode_tlv tag_sequence (init_sequence (oids_bytes token.mech_types) token))

abbrev pub resp_bytes : NegTokenResp → Bytes
resp_bytes token = encode_tlv tag_context_1 (encode_tlv tag_sequence (resp_sequence token))

-- The layout of a token.
abbrev pub spnego_bytes : NegotiationToken → Bytes
spnego_bytes (init_token token) = encode_tlv tag_application_0 (oid_tlv spnego ++ init_bytes token)
spnego_bytes (resp_token token) = resp_bytes token

pub spnego-IsOid : IsOid spnego
spnego-IsOid = omega arith

module _ {F : Type 0} where
  -- The value in a field.
  pub read_inner :
      (tag : ℕ) (bytes : Bytes)
      → tag % 0x20 ≢ 0x1f
      → length (encode_tlv tag bytes) < 2 ^ 64
      → read_single_tlv {F = F} (encode_tlv tag bytes) tag
        ≡ ok (record { tag = tag; value = bytes })
  read_inner tag bytes low fits =
      read_single_tlv-encode_tlv {F = F} tag bytes low (omega (arith, length-encode_tlv tag bytes))

  -- Reading a token with one value.
  pub read_token :
      (tag : ℕ) (value : Bytes)
      → tag % 0x20 ≢ 0x1f
      → length (encode_tlv tag value) < 2 ^ 64
      → read_tlv {F = F} (encode_tlv tag value) ≡ ok (record { tag = tag; value = value }, [])
  read_token tag value low fits =
      rw (← append-nil (encode_tlv tag value))
        (read_tlv-encode_tlv {F = F} tag value [] low (omega (arith, length-encode_tlv tag value)))

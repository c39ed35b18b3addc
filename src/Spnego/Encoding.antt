-- ===== src/Spnego/Encoding.antt =====
-- The encoders of the negotiation tokens of src/spnego.rs.
use rskrb.Prelude.{ℕ, List, [], ◌∷◌, ◌++◌, Option, none, some}
use rskrb.Result.{Result, ok, err, bind}
use rskrb.Wire.{Bytes}
use rskrb.Spnego.{
  ObjectIdentifier, Error, missing_mech_types, tag_sequence, tag_octet_string, tag_bit_string,
  tag_enumerated, tag_application_0, tag_context_0, tag_context_1, tag_context_2, tag_context_3,
}
use rskrb.Spnego.Oid.{spnego}
use rskrb.Spnego.Writer.{encode_tlv, encode_explicit, encode_oid, encode_u32}
use rskrb.Spnego.Negotiation.{
  NegState, state_value, NegTokenInit, NegTokenResp, NegotiationToken, init_token, resp_token,
}

-- `if let Some(value) = .. { fields.extend_from_slice(..) }`
abbrev pub optional_field : ℕ → ℕ → Option Bytes → Bytes
optional_field tag inner none = []
optional_field tag inner (some value) = encode_explicit tag (encode_tlv inner value)

abbrev pub init_sequence : Bytes → NegTokenInit → Bytes
init_sequence mech_types token =
    encode_explicit tag_context_0 (encode_tlv tag_sequence mech_types)
    ++ (optional_field tag_context_1 tag_bit_string token.req_flags
        ++ (optional_field tag_context_2 tag_octet_string token.mech_token
            ++ optional_field tag_context_3 tag_octet_string token.mech_list_mic))

abbrev pub encode_state : Option NegState → Bytes
encode_state none = []
encode_state (some state) =
    encode_explicit tag_context_0 (encode_tlv tag_enumerated (encode_u32 (state_value state)))

module _ {F : Type 0} where
  unfoldable pub encode_oids : List ObjectIdentifier → Result (Error F) Bytes
  encode_oids [] = ok []
  encode_oids (oid ∷ oids) =
      bind (encode_oid oid) λ first. bind (encode_oids oids) λ rest. ok (first ++ rest)

  abbrev pub encode_init_with : NegTokenInit → List ObjectIdentifier → Result (Error F) Bytes
  encode_init_with token [] = err missing_mech_types
  encode_init_with token (oid ∷ oids) = bind (encode_oids (oid ∷ oids)) λ mech_types.
      ok (encode_explicit tag_context_0 (encode_tlv tag_sequence (init_sequence mech_types token)))

  -- `NegTokenInit::encode`
  unfoldable pub encode_init : NegTokenInit → Result (Error F) Bytes
  encode_init token = encode_init_with token token.mech_types

  abbrev pub encode_mech : Option ObjectIdentifier → Result (Error F) Bytes
  encode_mech none = ok []
  encode_mech (some oid) = bind (encode_oid oid) λ bytes. ok (encode_explicit tag_context_1 bytes)

  -- `NegTokenResp::encode`
  unfoldable pub encode_resp : NegTokenResp → Result (Error F) Bytes
  encode_resp token = bind (encode_mech token.supported_mech) λ mech. ok (
      encode_explicit tag_context_1 (
        encode_tlv tag_sequence (
          encode_state token.neg_state
          ++ (mech
              ++ (optional_field tag_context_2 tag_octet_string token.response_token
                  ++ optional_field tag_context_3 tag_octet_string token.mech_list_mic)))))

  -- `NegotiationToken::encode`
  unfoldable pub encode_negotiation : NegotiationToken → Result (Error F) Bytes
  encode_negotiation (init_token token) = encode_init token
  encode_negotiation (resp_token token) = encode_resp token

  -- `SpnegoToken::encode`
  unfoldable pub encode_spnego : NegotiationToken → Result (Error F) Bytes
  encode_spnego (init_token token) =
      bind (encode_oid spnego)
        λ oid. bind (encode_init token) λ inner. ok (encode_tlv tag_application_0 (oid ++ inner))
  encode_spnego (resp_token token) = encode_resp token

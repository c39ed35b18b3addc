-- ===== src/Spnego/RespRoundTrip.antt =====
-- `NegTokenResp` of src/spnego.rs as bytes and back.
use mathlib.Core.Path.{subst}
use rskrb.Prelude.{◌^◌, ◌<◌, ◌≡◌, refl, sym, ◌++◌, Option, none, some, arith, length}
use rskrb.Result.{ok}
use rskrb.Wire.{Bytes}
use rskrb.Spnego.{
  ObjectIdentifier, tag_sequence, tag_object_identifier, tag_octet_string, tag_enumerated,
  tag_context_0, tag_context_1, tag_context_2, tag_context_3,
}
use rskrb.Spnego.Writer.{encode_tlv, encode_u32}
use rskrb.Spnego.Values.{length-encode_tlv, decode_u32-encode_u32}
use rskrb.Spnego.Arcs.{IsOid, oid_bytes}
use rskrb.Spnego.MechRoundTrip.{decode_oid_tlv-oid_bytes}
use rskrb.Spnego.Negotiation.{
  NegState, accept_completed, accept_incomplete, reject, request_mic, state_value, NegTokenResp,
  resp_token,
}
use rskrb.Spnego.Decoding.{state_from_value, no_resp_fields, resp_field, decode_neg_token_resp}
use rskrb.Spnego.Encoding.{encode_state}
use rskrb.Spnego.Fields.{Reads, Reads-tlv, Reads-optional_field, Reads-last_field}
use rskrb.Spnego.Layout.{IsToken, oid_tlv, mech_field, resp_sequence, read_inner}

state_value_small : (state : NegState) → state_value state < 2 ^ 32
state_value_small accept_completed = omega arith
state_value_small accept_incomplete = omega arith
state_value_small reject = omega arith
state_value_small request_mic = omega arith

module _ {F : Type 0} where
  state_from_value-state_value :
      (state : NegState) → state_from_value {F = F} (state_value state) ≡ ok state
  unfolding state_from_value
  state_from_value-state_value accept_completed = refl
  state_from_value-state_value accept_incomplete = refl
  state_from_value-state_value reject = refl
  state_from_value-state_value request_mic = refl

  resp_field-state :
      (s : NegTokenResp) (state : NegState)
      → length (encode_tlv tag_enumerated (encode_u32 (state_value state))) < 2 ^ 64
      → resp_field {F = F} s (record {
        tag = tag_context_0;
        value = encode_tlv tag_enumerated (encode_u32 (state_value state));
      })
        ≡ ok (record s { neg_state = some state })
  unfolding resp_field
  resp_field-state s state fits =
      rw
        (
          read_inner {F = F} tag_enumerated (encode_u32 (state_value state)) (omega arith) fits,
          decode_u32-encode_u32 {F = F} (state_value state) (state_value_small state),
          state_from_value-state_value state,
        )
        refl

  resp_field-mech :
      (s : NegTokenResp) (oid : ObjectIdentifier)
      → IsOid oid
      → length (oid_tlv oid) < 2 ^ 64
      → resp_field {F = F} s (record { tag = tag_context_1; value = oid_tlv oid })
        ≡ ok (record s { supported_mech = some oid })
  unfolding resp_field
  resp_field-mech s oid h fits =
      rw
        (
          read_inner {F = F} tag_object_identifier (oid_bytes oid) (omega arith) fits,
          decode_oid_tlv-oid_bytes {F = F} oid h,
        )
        refl

  resp_field-token :
      (s : NegTokenResp) (bytes : Bytes)
      → length (encode_tlv tag_octet_string bytes) < 2 ^ 64
      → resp_field {F = F} s
          (record { tag = tag_context_2; value = encode_tlv tag_octet_string bytes })
        ≡ ok (record s { response_token = some bytes })
  unfolding resp_field
  resp_field-token s bytes fits =
      rw (read_inner {F = F} tag_octet_string bytes (omega arith) fits) refl

  resp_field-mic :
      (s : NegTokenResp) (bytes : Bytes)
      → length (encode_tlv tag_octet_string bytes) < 2 ^ 64
      → resp_field {F = F} s
          (record { tag = tag_context_3; value = encode_tlv tag_octet_string bytes })
        ≡ ok (record s { mech_list_mic = some bytes })
  unfolding resp_field
  resp_field-mic s bytes fits =
      rw (read_inner {F = F} tag_octet_string bytes (omega arith) fits) refl

  Reads-state :
      (state : Option NegState) (rest : Bytes) (s out : NegTokenResp)
      → s.neg_state ≡ none
      → Reads (resp_field {F = F}) rest (record s { neg_state = state }) out
      → Reads (resp_field {F = F}) (encode_state state ++ rest) s out
  Reads-state none rest s out e more =
      subst (λ t. Reads (resp_field {F = F}) rest (record s { neg_state = t }) out) (sym e) more
  Reads-state (some state) rest s out e more =
      Reads-tlv (resp_field {F = F}) tag_context_0
        (encode_tlv tag_enumerated (encode_u32 (state_value state))) rest s _ out (omega arith)
        (resp_field-state s state) more

  Reads-mech :
      (mech : Option ObjectIdentifier) (rest : Bytes) (s out : NegTokenResp)
      → s.supported_mech ≡ none
      → IsToken (resp_token (record s { supported_mech = mech }))
      → Reads (resp_field {F = F}) rest (record s { supported_mech = mech }) out
      → Reads (resp_field {F = F}) (mech_field mech ++ rest) s out
  Reads-mech none rest s out e h more =
      subst (λ t. Reads (resp_field {F = F}) rest (record s { supported_mech = t }) out) (sym e)
        more
  Reads-mech (some oid) rest s out e h more =
      Reads-tlv (resp_field {F = F}) tag_context_1 (oid_tlv oid) rest s _ out (omega arith)
        (resp_field-mech s oid h) more

  Reads-resp_sequence :
      (token : NegTokenResp)
      → IsToken (resp_token token)
      → Reads (resp_field {F = F}) (resp_sequence token) no_resp_fields token
  Reads-resp_sequence token h =
      let a = record no_resp_fields { neg_state = token.neg_state } in
      let b = record a { supported_mech = token.supported_mech } in
      let c = record b { response_token = token.response_token } in
      Reads-state token.neg_state _ no_resp_fields token refl (
        Reads-mech token.supported_mech _ a token refl h (
          Reads-optional_field (resp_field {F = F}) tag_context_2 tag_octet_string
            token.response_token _ (λ v. record b { response_token = v }) _ (omega arith)
            (resp_field-token b)
            (Reads-last_field (resp_field {F = F}) tag_context_3 tag_octet_string
              token.mech_list_mic (λ v. record c { mech_list_mic = v }) (omega arith)
              (resp_field-mic c))))

  pub decode_neg_token_resp-resp_sequence :
      (token : NegTokenResp)
      → IsToken (resp_token token)
      → length (encode_tlv tag_sequence (resp_sequence token)) < 2 ^ 64
      → decode_neg_token_resp {F = F} (encode_tlv tag_sequence (resp_sequence token)) ≡ ok token
  unfolding decode_neg_token_resp
  decode_neg_token_resp-resp_sequence token h fits =
      let small = length-encode_tlv tag_sequence (resp_sequence token) in
      rw (read_inner {F = F} tag_sequence (resp_sequence token) (omega arith) fits) (
        Reads-resp_sequence token h (length (resp_sequence token)) (omega arith)
          (omega (arith, small)))

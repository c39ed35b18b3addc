-- ===== src/Spnego/InitRoundTrip.antt =====
-- `NegTokenInit` of src/spnego.rs as bytes and back.
use rskrb.Prelude.{◌^◌, ◌<◌, ◌≡◌, refl, List, [], ◌∷◌, some, arith, length, All}
use rskrb.Result.{ok}
use rskrb.Wire.{Bytes}
use rskrb.Spnego.{
  ObjectIdentifier, tag_sequence, tag_octet_string, tag_bit_string, tag_context_0, tag_context_1,
  tag_context_2, tag_context_3,
}
use rskrb.Spnego.Writer.{encode_tlv}
use rskrb.Spnego.Values.{length-encode_tlv}
use rskrb.Spnego.Arcs.{IsOid}
use rskrb.Spnego.Negotiation.{NegTokenInit, init_token}
use rskrb.Spnego.Decoding.{
  InitFields, no_init_fields, init_field, required_mech_types, decode_neg_token_init,
}
use rskrb.Spnego.Encoding.{init_sequence}
use rskrb.Spnego.Fields.{
  oids_bytes, decode_oids-oids_bytes, Reads, Reads-tlv, Reads-optional_field, Reads-last_field,
}
use rskrb.Spnego.Layout.{IsToken, read_inner}

module _ {F : Type 0} where
  init_field-types :
      (oids : List ObjectIdentifier)
      → All IsOid oids
      → length (encode_tlv tag_sequence (oids_bytes oids)) < 2 ^ 64
      → init_field {F = F} no_init_fields
          (record { tag = tag_context_0; value = encode_tlv tag_sequence (oids_bytes oids) })
        ≡ ok (record no_init_fields { mech_types = some oids })
  unfolding init_field
  init_field-types oids h fits =
      let small = length-encode_tlv tag_sequence (oids_bytes oids) in
      rw
        (
          read_inner {F = F} tag_sequence (oids_bytes oids) (omega arith) fits,
          decode_oids-oids_bytes {F = F} (length (oids_bytes oids)) oids h (omega arith)
              (omega (arith, small)),
        )
        refl

  init_field-flags :
      (s : InitFields) (bytes : Bytes)
      → length (encode_tlv tag_bit_string bytes) < 2 ^ 64
      → init_field {F = F} s
          (record { tag = tag_context_1; value = encode_tlv tag_bit_string bytes })
        ≡ ok (record s { req_flags = some bytes })
  unfolding init_field
  init_field-flags s bytes fits =
      rw (read_inner {F = F} tag_bit_string bytes (omega arith) fits) refl

  init_field-token :
      (s : InitFields) (bytes : Bytes)
      → length (encode_tlv tag_octet_string bytes) < 2 ^ 64
      → init_field {F = F} s
          (record { tag = tag_context_2; value = encode_tlv tag_octet_string bytes })
        ≡ ok (record s { mech_token = some bytes })
  unfolding init_field
  init_field-token s bytes fits =
      rw (read_inner {F = F} tag_octet_string bytes (omega arith) fits) refl

  init_field-mic :
      (s : InitFields) (bytes : Bytes)
      → length (encode_tlv tag_octet_string bytes) < 2 ^ 64
      → init_field {F = F} s
          (record { tag = tag_context_3; value = encode_tlv tag_octet_string bytes })
        ≡ ok (record s { mech_list_mic = some bytes })
  unfolding init_field
  init_field-mic s bytes fits =
      rw (read_inner {F = F} tag_octet_string bytes (omega arith) fits) refl

  pub Reads-init_sequence :
      (token : NegTokenInit)
      → All IsOid token.mech_types
      → Reads
          (init_field {F = F})
          (init_sequence (oids_bytes token.mech_types) token)
          no_init_fields
          (record {
            mech_types = some token.mech_types;
            req_flags = token.req_flags;
            mech_token = token.mech_token;
            mech_list_mic = token.mech_list_mic;
          })
  Reads-init_sequence token h =
      let a = record no_init_fields { mech_types = some token.mech_types } in
      let b = record a { req_flags = token.req_flags } in
      let c = record b { mech_token = token.mech_token } in
      Reads-tlv (init_field {F = F}) tag_context_0
        (encode_tlv tag_sequence (oids_bytes token.mech_types)) _ _ a _ (omega arith)
        (init_field-types token.mech_types h)
        (Reads-optional_field (init_field {F = F}) tag_context_1 tag_bit_string token.req_flags _
          (λ v. record a { req_flags = v }) _ (omega arith) (init_field-flags a)
          (Reads-optional_field (init_field {F = F}) tag_context_2 tag_octet_string token.mech_token
            _ (λ v. record b { mech_token = v }) _ (omega arith) (init_field-token b)
            (Reads-last_field (init_field {F = F}) tag_context_3 tag_octet_string
              token.mech_list_mic (λ v. record c { mech_list_mic = v }) (omega arith)
              (init_field-mic c))))

  required_mech_types_lem :
      (oids : List ObjectIdentifier)
      → 0 < length oids
      → required_mech_types {F = F} (some oids) ≡ ok oids
  required_mech_types_lem [] h = absurd (omega arith)
  required_mech_types_lem (oid ∷ oids) h = refl

  pub decode_neg_token_init-init_sequence :
      (token : NegTokenInit)
      → IsToken (init_token token)
      → length (encode_tlv tag_sequence (init_sequence (oids_bytes token.mech_types) token))
        < 2 ^ 64
      → decode_neg_token_init {F = F}
          (encode_tlv tag_sequence (init_sequence (oids_bytes token.mech_types) token))
        ≡ ok token
  unfolding decode_neg_token_init
  decode_neg_token_init-init_sequence token (some_types, h) fits =
      let content = init_sequence (oids_bytes token.mech_types) token in
      let small = length-encode_tlv tag_sequence content in
      rw
        (
          read_inner {F = F} tag_sequence content (omega arith) fits,
          Reads-init_sequence token h (length content) (omega arith) (omega (arith, small)),
          required_mech_types_lem token.mech_types some_types,
        )
        refl

-- ===== src/Spnego/RoundTrip.antt =====
-- The negotiation tokens of src/spnego.rs as bytes and back.
use rskrb.Prelude.{◌^◌, ◌<◌, ◌≡◌, refl, List, [], ◌∷◌, ◌++◌, Option, none, some, arith, length, All}
use rskrb.Result.{ok}
use rskrb.Wire.{Bytes}
use rskrb.Spnego.{
  ObjectIdentifier, tag_sequence, tag_object_identifier, tag_application_0, tag_context_0,
  tag_context_1,
}
use rskrb.Spnego.Oid.{spnego, oid_eq}
use rskrb.Spnego.Writer.{encode_tlv}
use rskrb.Spnego.Values.{read_tlv-encode_tlv, length-encode_tlv}
use rskrb.Spnego.Arcs.{IsOid, oid_bytes, encode_oid-oid_bytes}
use rskrb.Spnego.MechRoundTrip.{decode_oid_tlv-oid_bytes}
use rskrb.Spnego.Negotiation.{NegTokenInit, NegTokenResp, NegotiationToken, init_token, resp_token}
use rskrb.Spnego.Decoding.{decode_negotiation, decode_negotiation_choice, decode_spnego}
use rskrb.Spnego.Encoding.{
  encode_init, encode_init_with, init_sequence, encode_resp, encode_mech, encode_spnego,
}
use rskrb.Spnego.Fields.{length-encode_tlv-append, oids_bytes, encode_oids-oids_bytes}
use rskrb.Spnego.Layout.{
  IsToken, oid_tlv, mech_field, resp_sequence, init_bytes, resp_bytes, spnego_bytes, spnego-IsOid,
  read_token,
}
use rskrb.Spnego.InitRoundTrip.{decode_neg_token_init-init_sequence}
use rskrb.Spnego.RespRoundTrip.{decode_neg_token_resp-resp_sequence}

module _ {F : Type 0} where
  encode_init_with-oids_bytes :
      (token : NegTokenInit) (oids : List ObjectIdentifier)
      → 0 < length oids
      → All IsOid oids
      → encode_init_with {F = F} token oids
        ≡ ok (
            encode_tlv tag_context_0
              (encode_tlv tag_sequence (init_sequence (oids_bytes oids) token)))
  encode_init_with-oids_bytes token [] some_types h = absurd (omega arith)
  encode_init_with-oids_bytes token (oid ∷ oids) some_types h =
      rw (encode_oids-oids_bytes {F = F} (oid ∷ oids) h) refl

  encode_mech-mech_field :
      (token : NegTokenResp) (mech : Option ObjectIdentifier)
      → IsToken (resp_token (record token { supported_mech = mech }))
      → encode_mech {F = F} mech ≡ ok (mech_field mech)
  encode_mech-mech_field token none h = refl
  encode_mech-mech_field token (some oid) h = rw (encode_oid-oid_bytes {F = F} oid h) refl

  encode_init-init_bytes :
      (token : NegTokenInit)
      → IsToken (init_token token)
      → encode_init {F = F} token ≡ ok (init_bytes token)
  unfolding encode_init
  encode_init-init_bytes token (some_types, h) =
      encode_init_with-oids_bytes token token.mech_types some_types h

  decode_negotiation-init_bytes :
      (token : NegTokenInit)
      → IsToken (init_token token)
      → length (init_bytes token) < 2 ^ 64
      → decode_negotiation {F = F} (init_bytes token) ≡ ok (init_token token)
  unfolding decode_negotiation decode_negotiation_choice
  decode_negotiation-init_bytes token h fits =
      let value = encode_tlv tag_sequence (init_sequence (oids_bytes token.mech_types) token) in
      rw
        (
          read_token {F = F} tag_context_0 value (omega arith) fits,
          decode_neg_token_init-init_sequence {F = F} token h
              (omega (arith, length-encode_tlv tag_context_0 value)),
        )
        refl

  decode_negotiation-resp_bytes :
      (token : NegTokenResp)
      → IsToken (resp_token token)
      → length (resp_bytes token) < 2 ^ 64
      → decode_negotiation {F = F} (resp_bytes token) ≡ ok (resp_token token)
  unfolding decode_negotiation decode_negotiation_choice
  decode_negotiation-resp_bytes token h fits =
      let value = encode_tlv tag_sequence (resp_sequence token) in
      rw
        (
          read_token {F = F} tag_context_1 value (omega arith) fits,
          decode_neg_token_resp-resp_sequence {F = F} token h
              (omega (arith, length-encode_tlv tag_context_1 value)),
        )
        refl

  pub encode_spnego-spnego_bytes :
      (token : NegotiationToken)
      → IsToken token
      → encode_spnego {F = F} token ≡ ok (spnego_bytes token)
  unfolding encode_spnego
  encode_spnego-spnego_bytes (init_token token) h =
      rw (encode_oid-oid_bytes {F = F} spnego spnego-IsOid, encode_init-init_bytes token h) refl
  encode_spnego-spnego_bytes (resp_token token) h =
      unfold encode_resp in rw (encode_mech-mech_field token token.supported_mech h) refl

  -- The token in the mechanism's frame.
  decode_framed :
      (negotiation : Bytes) (token : NegTokenInit)
      → length (encode_tlv tag_application_0 (oid_tlv spnego ++ negotiation)) < 2 ^ 64
      → decode_negotiation {F = F} negotiation ≡ ok (init_token token)
      → decode_spnego {F = F} (encode_tlv tag_application_0 (oid_tlv spnego ++ negotiation))
        ≡ ok (init_token token)
  unfolding decode_spnego encode_tlv oid_eq
  decode_framed negotiation token fits inner =
      let content = oid_tlv spnego ++ negotiation in
      let small = length-encode_tlv tag_application_0 content in
      let size = length-encode_tlv-append tag_object_identifier (oid_bytes spnego) negotiation in
      rw
        (
          read_token {F = F} tag_application_0 content (omega arith) fits,
          read_tlv-encode_tlv {F = F} tag_object_identifier (oid_bytes spnego) negotiation
              (omega arith) (omega (arith, small, size)),
          decode_oid_tlv-oid_bytes {F = F} spnego spnego-IsOid,
          inner,
        )
        refl

  pub decode_spnego-spnego_bytes :
      (token : NegotiationToken)
      → IsToken token
      → length (spnego_bytes token) < 2 ^ 64
      → decode_spnego {F = F} (spnego_bytes token) ≡ ok token
  decode_spnego-spnego_bytes (init_token token) h fits =
      let content = oid_tlv spnego ++ init_bytes token in
      let size =
        length-encode_tlv-append tag_object_identifier (oid_bytes spnego) (init_bytes token) in
      decode_framed (init_bytes token) token fits (
        decode_negotiation-init_bytes token h
          (omega (arith, size, length-encode_tlv tag_application_0 content)))
  decode_spnego-spnego_bytes (resp_token token) h fits =
      unfold decode_spnego in unfold encode_tlv in decode_negotiation-resp_bytes token h fits

  -- The bytes that are written for a negotiation token are read as the same token. Its object identifiers
  -- are readable ones, an initial token has one at least, and the bytes number less than 2^64.
  pub decode_spnego-encode_spnego :
      (token : NegotiationToken) (bytes : Bytes)
      → IsToken token
      → encode_spnego {F = F} token ≡ ok bytes
      → length bytes < 2 ^ 64
      → decode_spnego {F = F} bytes ≡ ok token
  decode_spnego-encode_spnego token bytes h written fits =
      let same : bytes ≡ spnego_bytes token = cc (written, encode_spnego-spnego_bytes token h) in
      rw same (decode_spnego-spnego_bytes token h (rw (← same) fits))

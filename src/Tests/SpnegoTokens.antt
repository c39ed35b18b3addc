-- ===== src/Tests/SpnegoTokens.antt =====
-- Negotiation tokens at concrete inputs.
use rskrb.Prelude.{ℕ, ◌≡◌, ◌^◌, ◌<◌, refl, [], ◌∷◌, length, arith}
use rskrb.Result.{ok, bind, Ensures}
use rskrb.Wire.{Bytes, big}
use rskrb.Wire.Numbers.{join32}
use rskrb.Spnego.{ObjectIdentifier}
use rskrb.Spnego.Oid.{spnego}
use rskrb.Spnego.Reader.{decode_u32, decode_oid_value}
use rskrb.Spnego.Writer.{
  encode_tlv, encode_len, encode_u32, oid_value, encode_arcs, encode_base128, base128_loop,
  be_bytes, drop_zeros, strip_zeros,
}
use rskrb.Spnego.Values.{decode_u32-five}
use rskrb.Spnego.Arcs.{decode_oid_value-oid_value, decode_oid_value_wraps}
use rskrb.Spnego.MechRoundTrip.{krb5-IsOid}
use rskrb.Spnego.Negotiation.{
  NegotiationToken, resp_token, with_response_token, resp_accept_completed,
}
use rskrb.Spnego.Acceptor.{decode_or_raw}
use rskrb.Spnego.Decoding.{decode_spnego}
use rskrb.Spnego.Layout.{spnego_bytes}
use rskrb.Spnego.RoundTrip.{encode_spnego-spnego_bytes, decode_spnego-encode_spnego}
use rskrb.Spnego.Exchange.{krb5_request, request_exchange, request_exchange_lem}
use rskrb.Spnego.Decoded.{HasMechTypes, decode_or_raw-HasMechTypes}

abbrev message : Bytes
message = 0x6e ∷ 0x03 ∷ 1 ∷ 2 ∷ 3 ∷ []

abbrev response : NegotiationToken
response = resp_token (with_response_token resp_accept_completed message)

short_response : length (spnego_bytes response) < 2 ^ 64
unfolding encode_tlv encode_len encode_u32 strip_zeros encode_arcs encode_base128 base128_loop
short_response = omega arith

decode_spnego-encode_spnego_example : decode_spnego {F = ℕ} (spnego_bytes response) ≡ ok response
decode_spnego-encode_spnego_example =
    decode_spnego-encode_spnego response (spnego_bytes response) krb5-IsOid
      (encode_spnego-spnego_bytes response krb5-IsOid) short_response

short_request : length (spnego_bytes (krb5_request message)) < 2 ^ 64
unfolding encode_tlv encode_len encode_arcs encode_base128 base128_loop
short_request = omega arith

request_exchange_lem_example : request_exchange {F = ℕ} message ≡ ok message
request_exchange_lem_example = request_exchange_lem message (omega arith) short_request

decode_or_raw-HasMechTypes_example : Ensures HasMechTypes (decode_or_raw {F = ℕ} (0x60 ∷ 0x80 ∷ []))
decode_or_raw-HasMechTypes_example = decode_or_raw-HasMechTypes (0x60 ∷ 0x80 ∷ [])

decode_oid_value-oid_value_example : bind (oid_value {F = ℕ} spnego) decode_oid_value ≡ ok spnego
decode_oid_value-oid_value_example = decode_oid_value-oid_value spnego (omega arith)

decode_u32-five_example :
    decode_u32 {F = ℕ} (1 ∷ 0 ∷ 0 ∷ 0 ∷ 2 ∷ []) ≡ ok (join32 big (0 ∷ 0 ∷ 0 ∷ 2 ∷ []))
decode_u32-five_example = decode_u32-five 1 0 0 0 2 (omega arith) (omega arith)

-- An identifier that ends in 2^32 + 2 is read as that of SPNEGO.
decode_oid_value_wraps_example :
    decode_oid_value {F = ℕ} (0x2b ∷ 6 ∷ 1 ∷ 5 ∷ 5 ∷ 0x90 ∷ 0x80 ∷ 0x80 ∷ 0x80 ∷ 2 ∷ []) ≡ ok spnego
unfolding encode_arcs encode_base128 base128_loop
decode_oid_value_wraps_example =
    decode_oid_value_wraps {F = ℕ} 1 3 (6 ∷ 1 ∷ 5 ∷ 5 ∷ []) 0x10 (0 ∷ 0 ∷ 0 ∷ 2 ∷ []) []
      (omega arith) (omega arith) (omega arith) (omega arith) tt

-- The identifier of SPNEGO as other software writes it.
spnego_value : oid_value {F = ℕ} spnego ≡ ok (0x2b ∷ 0x06 ∷ 0x01 ∷ 0x05 ∷ 0x05 ∷ 0x02 ∷ [])
unfolding oid_value encode_arcs encode_base128 base128_loop rskrb.Spnego.Writer.first_arcs
spnego_value = refl

-- ===== src/Spnego/Exchange.antt =====
-- How the tokens of src/spnego.rs work together: an AP-REQ in a mechanism token, in a negotiation
-- token and back, and a Kerberos token with no negotiation around it.
use rskrb.Prelude.{◌^◌, ◌<◌, ◌≡◌, refl, [], ◌∷◌, ◌++◌, arith, length, length-append}
use rskrb.Result.{Result, ok, bind}
use rskrb.Wire.{Bytes}
use rskrb.Spnego.{
  Error, tag_application_0, tag_object_identifier, tag_octet_string, tag_context_0, tag_context_2,
  tag_sequence,
}
use rskrb.Spnego.Oid.{krb5, spnego, oid_eq, is_kerberos_mechanism}
use rskrb.Spnego.Writer.{encode_tlv}
use rskrb.Spnego.Values.{length-encode_tlv}
use rskrb.Spnego.Arcs.{oid_bytes}
use rskrb.Spnego.Krb5.{ap_req, new_token, encode_mech_token}
use rskrb.Spnego.MechRoundTrip.{
  krb5-IsOid, mech_bytes, encode_mech_token-mech_bytes, decode_mech_token-mech_bytes,
}
use rskrb.Spnego.Negotiation.{NegotiationToken, init_token, init_krb5}
use rskrb.Spnego.Acceptor.{any_kerberos, ensure_kerberos_mechanism, krb5_ap_req, decode_or_raw}
use rskrb.Spnego.Encoding.{encode_spnego}
use rskrb.Spnego.Fields.{length-encode_tlv-append, oids_bytes}
use rskrb.Spnego.Layout.{spnego_bytes, oid_tlv}
use rskrb.Spnego.RoundTrip.{encode_spnego-spnego_bytes, decode_spnego-spnego_bytes}

-- The token that asks for Kerberos with that message.
abbrev pub krb5_request : Bytes → NegotiationToken
krb5_request message = init_token (init_krb5 (mech_bytes ap_req message))

length-krb5_request :
    (message : Bytes)
    → length (mech_bytes ap_req message) < length (spnego_bytes (krb5_request message))
length-krb5_request message =
    let mech = mech_bytes ap_req message in
    let types = encode_tlv tag_context_0 (encode_tlv tag_sequence (oids_bytes (krb5 ∷ []))) in
    let token = encode_tlv tag_context_2 (encode_tlv tag_octet_string mech) in
    let fields = types ++ (token ++ []) in
    let inner = encode_tlv tag_context_0 (encode_tlv tag_sequence fields) in
    omega (
      arith,
      length-encode_tlv tag_application_0 (oid_tlv spnego ++ inner),
      length-encode_tlv-append tag_object_identifier (oid_bytes spnego) inner,
      length-encode_tlv tag_context_0 (encode_tlv tag_sequence fields),
      length-encode_tlv tag_sequence fields,
      length-append types (token ++ []),
      length-append token [],
      length-encode_tlv tag_context_2 (encode_tlv tag_octet_string mech),
      length-encode_tlv tag_octet_string mech,
    )

module _ {F : Type 0} where
  -- The whole way of a request, as the two sides of the negotiation run it.
  abbrev pub request_exchange : Bytes → Result (Error F) Bytes
  request_exchange message = bind (encode_mech_token (new_token ap_req message)) λ mech.
      bind (encode_spnego (init_token (init_krb5 mech)))
        λ bytes. bind (decode_or_raw bytes) λ token. krb5_ap_req token

  krb5_ap_req-krb5_request :
      (message : Bytes)
      → 0 < length message
      → length (mech_bytes ap_req message) < 2 ^ 64
      → krb5_ap_req {F = F} (krb5_request message) ≡ ok message
  unfolding krb5_ap_req ensure_kerberos_mechanism any_kerberos is_kerberos_mechanism oid_eq
  krb5_ap_req-krb5_request message some_bytes fits =
      rw (decode_mech_token-mech_bytes {F = F} ap_req message some_bytes fits) refl

  -- An AP-REQ that is not empty, written into a Kerberos token, that into an initial negotiation token, and
  -- the bytes of it read by the other side, comes out as it was. The bytes number less than 2^64.
  pub request_exchange_lem :
      (message : Bytes)
      → 0 < length message
      → length (spnego_bytes (krb5_request message)) < 2 ^ 64
      → request_exchange message ≡ ok message
  unfolding decode_or_raw
  request_exchange_lem message some_bytes fits =
      rw
        (
          encode_mech_token-mech_bytes {F = F} ap_req message some_bytes,
          encode_spnego-spnego_bytes {F = F} (krb5_request message) (omega arith, (krb5-IsOid, tt)),
          decode_spnego-spnego_bytes {F = F} (krb5_request message) (omega arith, (krb5-IsOid, tt))
              fits,
        )
        (krb5_ap_req-krb5_request message some_bytes (omega (arith, length-krb5_request message)))

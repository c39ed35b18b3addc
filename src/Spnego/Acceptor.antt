-- ===== src/Spnego/Acceptor.antt =====
-- The AP-REQ in a negotiation token of src/spnego.rs, and the token that stands for a raw one.
use rskrb.Prelude.{Bool, false, not, ◌||◌, List, [], ◌∷◌, if◌then◌else◌}
use rskrb.Result.{Result, ok, err, stuck, bind}
use rskrb.Wire.{Bytes, ok_or}
use rskrb.Spnego.{
  ObjectIdentifier, Error, unsupported_mechanism, missing_mech_types, missing_mech_token,
  missing_ap_req,
}
use rskrb.Spnego.Oid.{is_kerberos_mechanism}
use rskrb.Spnego.Krb5.{
  Krb5TokenId, ap_req, ap_rep, krb_error, token_id_eq, Krb5MechToken, decode_mech_token,
}
use rskrb.Spnego.Negotiation.{
  init_krb5, resp_accept_completed, resp_reject, with_response_token, NegotiationToken, init_token,
  resp_token,
}
use rskrb.Spnego.Decoding.{decode_spnego}

-- `iter().any(..)`
unfoldable pub any_kerberos : List ObjectIdentifier → Bool
any_kerberos [] = false
any_kerberos (oid ∷ oids) = is_kerberos_mechanism oid || any_kerberos oids

-- `raw_krb5_negotiate_token`
abbrev pub raw_token : Bytes → Krb5TokenId → NegotiationToken
raw_token bytes ap_req = init_token (init_krb5 bytes)
raw_token bytes ap_rep = resp_token (with_response_token resp_accept_completed bytes)
raw_token bytes krb_error = resp_token (with_response_token resp_reject bytes)

module _ {F : Type 0} where
  unfoldable pub ensure_kerberos_mechanism : List ObjectIdentifier → Result (Error F) (Unit {0})
  ensure_kerberos_mechanism [] = err missing_mech_types
  ensure_kerberos_mechanism (oid ∷ oids) =
      if any_kerberos (oid ∷ oids) then ok tt else err (unsupported_mechanism oid)

  abbrev pub ap_req_of : Krb5MechToken → Result (Error F) Bytes
  ap_req_of token =
      if not (token_id_eq token.token_id ap_req) then err missing_ap_req else ok token.message

  -- `SpnegoToken::krb5_ap_req` and `NegTokenInit::krb5_ap_req`
  unfoldable pub krb5_ap_req : NegotiationToken → Result (Error F) Bytes
  krb5_ap_req (init_token token) = bind (ensure_kerberos_mechanism token.mech_types) λ _.
      bind (ok_or token.mech_token missing_mech_token)
        λ bytes. bind (decode_mech_token bytes) λ krb5_token. ap_req_of krb5_token
  krb5_ap_req (resp_token token) = bind (ok_or token.supported_mech missing_mech_types) λ mech.
      bind (ensure_kerberos_mechanism (mech ∷ [])) λ _.
        bind (ok_or token.response_token missing_mech_token)
          λ bytes. bind (decode_mech_token bytes) λ krb5_token. ap_req_of krb5_token

  abbrev pub raw_result :
      Bytes → Error F → Result (Error F) Krb5MechToken → Result (Error F) NegotiationToken
  raw_result bytes spnego_error (ok token) = ok (raw_token bytes token.token_id)
  raw_result bytes spnego_error (err _) = err spnego_error
  raw_result bytes spnego_error stuck = stuck

  unfoldable pub raw_krb5_negotiate_token : Bytes → Error F → Result (Error F) NegotiationToken
  raw_krb5_negotiate_token bytes spnego_error =
      raw_result bytes spnego_error (decode_mech_token bytes)

  abbrev pub or_else_raw :
      Bytes → Result (Error F) NegotiationToken → Result (Error F) NegotiationToken
  or_else_raw bytes (ok token) = ok token
  or_else_raw bytes (err e) = raw_krb5_negotiate_token bytes e
  or_else_raw bytes stuck = stuck

  -- `SpnegoToken::decode(..).or_else(..)` of `parse_negotiate_header`.
  unfoldable pub decode_or_raw : Bytes → Result (Error F) NegotiationToken
  decode_or_raw bytes = or_else_raw bytes (decode_spnego bytes)

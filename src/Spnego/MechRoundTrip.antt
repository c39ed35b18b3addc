-- ===== src/Spnego/MechRoundTrip.antt =====
-- `Krb5MechToken` of src/spnego.rs as bytes and back.
use rskrb.Prelude.{◌^◌, ◌<◌, ◌≡◌, refl, [], ◌∷◌, ◌++◌, append-nil, arith, length}
use rskrb.Result.{ok}
use rskrb.Wire.{Bytes}
use rskrb.Spnego.{ObjectIdentifier, tag_application_0, tag_object_identifier}
use rskrb.Spnego.Oid.{krb5, oid_eq}
use rskrb.Spnego.Reader.{read_bytes, decode_oid_tlv}
use rskrb.Spnego.Writer.{encode_tlv, encode_arcs, encode_base128, base128_loop}
use rskrb.Spnego.Values.{read_tlv-encode_tlv, length-encode_tlv}
use rskrb.Spnego.Arcs.{IsOid, oid_bytes, encode_oid-oid_bytes, decode_oid_value-oid_bytes}
use rskrb.Spnego.Krb5.{
  Krb5TokenId, ap_req, ap_rep, krb_error, token_id_bytes, token_id_from_bytes, new_token,
  decode_mech_token, encode_mech_token,
}

-- The layout of a token.
abbrev pub mech_content : Krb5TokenId → Bytes → Bytes
mech_content token_id message =
    encode_tlv tag_object_identifier (oid_bytes krb5) ++ (token_id_bytes token_id ++ message)

abbrev pub mech_bytes : Krb5TokenId → Bytes → Bytes
mech_bytes token_id message = encode_tlv tag_application_0 (mech_content token_id message)

pub krb5-IsOid : IsOid krb5
krb5-IsOid = omega arith

pub length-krb5 : length (oid_bytes krb5) ≡ 9
unfolding encode_arcs encode_base128 base128_loop
length-krb5 = refl

module _ {F : Type 0} where
  pub decode_oid_tlv-oid_bytes :
      (oid : ObjectIdentifier)
      → IsOid oid
      → decode_oid_tlv {F = F} (record { tag = tag_object_identifier; value = oid_bytes oid })
        ≡ ok oid
  unfolding decode_oid_tlv
  decode_oid_tlv-oid_bytes oid h = decode_oid_value-oid_bytes oid h

  token_id_from_bytes-token_id_bytes :
      (token_id : Krb5TokenId) → token_id_from_bytes {F = F} (token_id_bytes token_id) ≡ ok token_id
  unfolding token_id_from_bytes
  token_id_from_bytes-token_id_bytes ap_req = refl
  token_id_from_bytes-token_id_bytes ap_rep = refl
  token_id_from_bytes-token_id_bytes krb_error = refl

  read_bytes-token_id :
      (token_id : Krb5TokenId) (message : Bytes)
      → read_bytes {F = F} 2 (token_id_bytes token_id ++ message)
        ≡ ok (token_id_bytes token_id, message)
  unfolding read_bytes
  read_bytes-token_id ap_req message = ground arith
  read_bytes-token_id ap_rep message = ground arith
  read_bytes-token_id krb_error message = ground arith

  pub encode_mech_token-mech_bytes :
      (token_id : Krb5TokenId) (message : Bytes)
      → 0 < length message
      → encode_mech_token {F = F} (new_token token_id message) ≡ ok (mech_bytes token_id message)
  unfolding encode_mech_token
  encode_mech_token-mech_bytes token_id [] h = absurd (omega arith)
  encode_mech_token-mech_bytes token_id (byte ∷ bytes) h =
      rw (encode_oid-oid_bytes {F = F} krb5 krb5-IsOid) refl

  pub decode_mech_token-mech_bytes :
      (token_id : Krb5TokenId) (message : Bytes)
      → 0 < length message
      → length (mech_bytes token_id message) < 2 ^ 64
      → decode_mech_token {F = F} (mech_bytes token_id message) ≡ ok (new_token token_id message)
  unfolding decode_mech_token oid_eq
  decode_mech_token-mech_bytes token_id [] h fits = absurd (omega arith)
  decode_mech_token-mech_bytes token_id (byte ∷ bytes) h fits =
      let content = mech_content token_id (byte ∷ bytes) in
      let outer =
        read_tlv-encode_tlv {F = F} tag_application_0 content [] (omega arith)
          (omega (arith, length-encode_tlv tag_application_0 content)) in
      let inner =
        read_tlv-encode_tlv {F = F} tag_object_identifier (oid_bytes krb5)
          (token_id_bytes token_id ++ byte ∷ bytes) (omega arith) (omega (arith, length-krb5)) in
      rw
        (
          ← append-nil (mech_bytes token_id (byte ∷ bytes)),
          outer,
          inner,
          decode_oid_tlv-oid_bytes krb5 krb5-IsOid,
          read_bytes-token_id token_id (byte ∷ bytes),
          token_id_from_bytes-token_id_bytes token_id,
        )
        refl

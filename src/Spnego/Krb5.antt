-- ===== src/Spnego/Krb5.antt =====
-- `Krb5TokenId` and `Krb5MechToken` of src/spnego.rs.
use rskrb.Prelude.{Bool, not, [], ◌∷◌, ◌++◌, Option, none, some, ◌==◌, if◌then◌else◌}
use rskrb.Prelude.Text.{text_eq}
use rskrb.Result.{Result, ok, err, bind}
use rskrb.Wire.{Bytes}
use rskrb.Spnego.{
  ObjectIdentifier, Error, unexpected_tag, unsupported_mechanism, unknown_krb5_token_id,
  missing_kerberos_message, tag_application_0,
}
use rskrb.Spnego.Oid.{krb5, oid_eq}
use rskrb.Spnego.Reader.{read_tlv, read_bytes, finish, decode_oid_tlv}
use rskrb.Spnego.Writer.{encode_tlv, encode_oid}

pub data Krb5TokenId : Type 0 where
  ap_req ap_rep krb_error : Krb5TokenId

-- `Krb5TokenId::bytes`
abbrev pub token_id_bytes : Krb5TokenId → Bytes
token_id_bytes ap_req = 0x01 ∷ 0x00 ∷ []
token_id_bytes ap_rep = 0x02 ∷ 0x00 ∷ []
token_id_bytes krb_error = 0x03 ∷ 0x00 ∷ []

-- The derived `==`.
abbrev pub token_id_eq : Krb5TokenId → Krb5TokenId → Bool
token_id_eq a b = text_eq (token_id_bytes a) (token_id_bytes b)

pub record Krb5MechToken : Type 0 where
  pub oid : ObjectIdentifier
  pub token_id : Krb5TokenId
  pub message : Bytes

-- `Krb5MechToken::new`
abbrev pub new_token : Krb5TokenId → Bytes → Krb5MechToken
new_token token_id message = record { oid = krb5; token_id = token_id; message = message }

unfoldable pub ap_req_bytes : Krb5MechToken → Option Bytes
ap_req_bytes token = elim token.token_id [ ap_req ↦ some token.message | _ ↦ none ]

unfoldable pub ap_rep_bytes : Krb5MechToken → Option Bytes
ap_rep_bytes token = elim token.token_id [ ap_rep ↦ some token.message | _ ↦ none ]

module _ {F : Type 0} where
  -- `Krb5TokenId::from_bytes`
  unfoldable pub token_id_from_bytes : Bytes → Result (Error F) Krb5TokenId
  unfolding text_eq
  token_id_from_bytes bytes =
      if text_eq bytes (token_id_bytes ap_req)
      then ok ap_req
      else if text_eq bytes (token_id_bytes ap_rep)
      then ok ap_rep
      else if text_eq bytes (token_id_bytes krb_error)
      then ok krb_error
      else err (unknown_krb5_token_id bytes)

  -- What follows the identifier of the mechanism.
  abbrev pub mech_message : ObjectIdentifier → Krb5TokenId → Bytes → Result (Error F) Krb5MechToken
  mech_message oid token_id [] = err missing_kerberos_message
  mech_message oid token_id (byte ∷ bytes) =
      ok (record { oid = oid; token_id = token_id; message = byte ∷ bytes })

  -- `Krb5MechToken::decode`
  unfoldable pub decode_mech_token : Bytes → Result (Error F) Krb5MechToken
  decode_mech_token bytes = bind (read_tlv bytes) λ (token, rest). bind (finish rest) λ _.
      if not (token.tag == tag_application_0)
      then err (unexpected_tag tag_application_0 token.tag)
      else bind (read_tlv token.value) λ (oid_tlv, content). bind (decode_oid_tlv oid_tlv) λ oid.
        if not (oid_eq oid krb5)
        then err (unsupported_mechanism oid)
        else bind (read_bytes 2 content) λ (tok_id, message).
          bind (token_id_from_bytes tok_id) λ token_id. mech_message oid token_id message

  -- `Krb5MechToken::encode`
  abbrev encode_message : Krb5MechToken → Bytes → Result (Error F) Bytes
  encode_message token [] = err missing_kerberos_message
  encode_message token (byte ∷ bytes) = bind (encode_oid token.oid) λ oid.
      ok (encode_tlv tag_application_0 (oid ++ (token_id_bytes token.token_id ++ byte ∷ bytes)))

  unfoldable pub encode_mech_token : Krb5MechToken → Result (Error F) Bytes
  encode_mech_token token = encode_message token token.message

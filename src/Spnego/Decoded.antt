-- ===== src/Spnego/Decoded.antt =====
-- The decoders of the tokens of src/spnego.rs always end, and what their tokens hold.
use rskrb.Prelude.{
  ℕ, zero, suc, ◌≤◌, ◌<◌, refl, List, [], ◌∷◌, Option, none, some, arith, ltb, ◌==◌, length, not,
}
use rskrb.Prelude.Text.{text_eq}
use rskrb.Result.{
  Result, ok, err, stuck, bind, Ensures, holds, rejected, Ensures-bind, Ensures-if,
  Ensures-ne-stuck,
}
use rskrb.Wire.{Bytes}
use rskrb.Spnego.{
  ObjectIdentifier, Error, Tlv, tag_sequence, tag_object_identifier, tag_octet_string,
  tag_bit_string, tag_enumerated, tag_application_0, tag_context_0, tag_context_1, tag_context_2,
  tag_context_3,
}
use rskrb.Spnego.Reader.{read_single_tlv, read_bytes}
use rskrb.Spnego.Decoding.{
  InitFields, decode_oids, read_fields, init_field, resp_field, state_from_value,
  decode_neg_token_init, required_mech_types, decode_neg_token_resp, decode_negotiation_choice,
  decode_negotiation, expect_init, decode_spnego, no_init_fields, no_resp_fields,
}
use rskrb.Spnego.Negotiation.{NegTokenResp, NegotiationToken, init_token, resp_token}
use rskrb.Spnego.Acceptor.{
  raw_token, raw_result, raw_krb5_negotiate_token, or_else_raw, decode_or_raw,
}
use rskrb.Spnego.Termination.{
  Ends, read_tlv-Splits, finish-Ends, read_single_tlv-Ends, decode_oid_tlv-Ends, decode_u32-Ends,
}
use rskrb.Spnego.Oid.{krb5, spnego, oid_eq}
use rskrb.Spnego.Krb5.{
  Krb5TokenId, ap_req, ap_rep, krb_error, token_id_bytes, token_id_from_bytes, Krb5MechToken,
  mech_message, decode_mech_token,
}

-- A request names a mechanism.
abbrev pub HasMechTypes : NegotiationToken → Type 0
HasMechTypes (init_token token) = 0 < length token.mech_types
HasMechTypes (resp_token token) = Unit

-- A mechanism token has a message.
abbrev pub HasMessage : Krb5MechToken → Type 0
HasMessage token = 0 < length token.message

raw_token-HasMechTypes :
    (bytes : Bytes) (token_id : Krb5TokenId) → HasMechTypes (raw_token bytes token_id)
raw_token-HasMechTypes bytes ap_req = omega arith
raw_token-HasMechTypes bytes ap_rep = tt
raw_token-HasMechTypes bytes krb_error = tt

module _ {F : Type 0} where
  state_from_value-Ends : (value : ℕ) → Ends (state_from_value {F = F} value)
  unfolding state_from_value
  state_from_value-Ends value =
      Ensures-if (value == 0) (λ _. holds tt)
        λ _.
          Ensures-if (value == 1) (λ _. holds tt)
            λ _.
              Ensures-if (value == 2) (λ _. holds tt)
                λ _. Ensures-if (value == 3) (λ _. holds tt) (λ _. rejected)

  decode_oids-Ends :
      (fuel : ℕ) (bytes : Bytes) → length bytes ≤ fuel → Ends (decode_oids {F = F} fuel bytes)
  unfolding decode_oids
  decode_oids-Ends fuel [] h = holds tt
  decode_oids-Ends zero (byte ∷ bytes) h = absurd (omega arith)
  decode_oids-Ends (suc fuel) (byte ∷ bytes) h =
      Ensures-bind _ (read_tlv-Splits (byte ∷ bytes)) λ (tlv, rest) split.
        Ensures-bind _ (decode_oid_tlv-Ends tlv) λ oid _.
          Ensures-bind _ (decode_oids-Ends fuel rest (omega (arith, split, h))) (λ _ _. holds tt)

  read_fields-Ends :
      {S : Type 0} (field : S → Tlv → Result (Error F) S) (fuel : ℕ) (bytes : Bytes) (s : S)
      → length bytes ≤ fuel
      → ((t : S) (tlv : Tlv) → Ends (field t tlv))
      → Ends (read_fields field fuel bytes s)
  unfolding read_fields
  read_fields-Ends field fuel [] s h each = holds tt
  read_fields-Ends field zero (byte ∷ bytes) s h each = absurd (omega arith)
  read_fields-Ends field (suc fuel) (byte ∷ bytes) s h each =
      Ensures-bind _ (read_tlv-Splits (byte ∷ bytes)) λ (tlv, rest) split.
        Ensures-bind _ (each s tlv)
          λ s' _. read_fields-Ends field fuel rest s' (omega (arith, split, h)) each

  -- A field that holds one value.
  single-Ends :
      {A : Type 0} (bytes : Bytes) (tag : ℕ) (f : Tlv → Result (Error F) A)
      → ((tlv : Tlv) → Ends (f tlv))
      → Ends (bind (read_single_tlv bytes tag) f)
  single-Ends bytes tag f h = Ensures-bind f (read_single_tlv-Ends bytes tag) (λ tlv _. h tlv)

  init_field-Ends : (fields : InitFields) (field : Tlv) → Ends (init_field {F = F} fields field)
  unfolding init_field
  init_field-Ends fields field =
      Ensures-if (field.tag == tag_context_0)
        (λ _. single-Ends field.value tag_sequence _ λ sequence.
          Ensures-bind _ (decode_oids-Ends (length sequence.value) sequence.value (omega arith))
            (λ _ _. holds tt))
        λ _.
          Ensures-if (field.tag == tag_context_1)
            (λ _. single-Ends field.value tag_bit_string _ (λ _. holds tt))
            λ _.
              Ensures-if (field.tag == tag_context_2)
                (λ _. single-Ends field.value tag_octet_string _ (λ _. holds tt))
                λ _.
                  Ensures-if (field.tag == tag_context_3)
                    (λ _. single-Ends field.value tag_octet_string _ (λ _. holds tt))
                    (λ _. rejected)

  resp_field-Ends : (fields : NegTokenResp) (field : Tlv) → Ends (resp_field {F = F} fields field)
  unfolding resp_field
  resp_field-Ends fields field =
      Ensures-if (field.tag == tag_context_0)
        (λ _. single-Ends field.value tag_enumerated _ λ enumerated.
          Ensures-bind _ (decode_u32-Ends enumerated.value)
            λ value _. Ensures-bind _ (state_from_value-Ends value) (λ _ _. holds tt))
        λ _.
          Ensures-if (field.tag == tag_context_1)
            (λ _.
              single-Ends field.value tag_object_identifier _
                λ tlv. Ensures-bind _ (decode_oid_tlv-Ends tlv) (λ _ _. holds tt))
            λ _.
              Ensures-if (field.tag == tag_context_2)
                (λ _. single-Ends field.value tag_octet_string _ (λ _. holds tt))
                λ _.
                  Ensures-if (field.tag == tag_context_3)
                    (λ _. single-Ends field.value tag_octet_string _ (λ _. holds tt))
                    (λ _. rejected)

  required_mech_types-Ensures :
      (types : Option (List ObjectIdentifier))
      → Ensures (λ oids. 0 < length oids) (required_mech_types {F = F} types)
  required_mech_types-Ensures none = rejected
  required_mech_types-Ensures (some []) = rejected
  required_mech_types-Ensures (some (oid ∷ oids)) = holds (omega arith)

  decode_neg_token_init-Ensures :
      (bytes : Bytes)
      → Ensures (λ token. HasMechTypes (init_token token)) (decode_neg_token_init {F = F} bytes)
  unfolding decode_neg_token_init
  decode_neg_token_init-Ensures bytes =
      Ensures-bind _ (read_single_tlv-Ends bytes tag_sequence) λ sequence _.
        Ensures-bind _
          (read_fields-Ends init_field (length sequence.value) sequence.value no_init_fields
            (omega arith) init_field-Ends)
          λ fields _.
            Ensures-bind _ (required_mech_types-Ensures fields.mech_types) (λ types h. holds h)

  decode_neg_token_resp-Ends : (bytes : Bytes) → Ends (decode_neg_token_resp {F = F} bytes)
  unfolding decode_neg_token_resp
  decode_neg_token_resp-Ends bytes =
      Ensures-bind _ (read_single_tlv-Ends bytes tag_sequence) λ sequence _.
        read_fields-Ends resp_field (length sequence.value) sequence.value no_resp_fields
          (omega arith) resp_field-Ends

  decode_negotiation-HasMechTypes :
      (bytes : Bytes) → Ensures HasMechTypes (decode_negotiation {F = F} bytes)
  unfolding decode_negotiation decode_negotiation_choice
  decode_negotiation-HasMechTypes bytes = Ensures-bind _ (read_tlv-Splits bytes) λ (choice, rest) _.
      Ensures-bind _ (finish-Ends rest) λ _ _.
        Ensures-if (choice.tag == tag_context_0)
          (λ _. Ensures-bind _ (decode_neg_token_init-Ensures choice.value) (λ _ h. holds h))
          λ _.
            Ensures-if (choice.tag == tag_context_1)
              (λ _. Ensures-bind _ (decode_neg_token_resp-Ends choice.value) (λ _ _. holds tt))
              (λ _. rejected)

  expect_init-HasMechTypes :
      (token : NegotiationToken)
      → HasMechTypes token
      → Ensures HasMechTypes (bind (expect_init {F = F} token) λ init. ok (init_token init))
  expect_init-HasMechTypes (init_token token) h = holds h
  expect_init-HasMechTypes (resp_token token) h = rejected

  decode_spnego-HasMechTypes : (bytes : Bytes) → Ensures HasMechTypes (decode_spnego {F = F} bytes)
  unfolding decode_spnego
  decode_spnego-HasMechTypes [] = rejected
  decode_spnego-HasMechTypes (first ∷ bytes) =
      Ensures-if (first == tag_application_0)
        (λ _. Ensures-bind _ (read_tlv-Splits (first ∷ bytes)) λ (token, rest) _.
          Ensures-bind _ (finish-Ends rest) λ _ _.
            Ensures-bind _ (read_tlv-Splits token.value) λ (oid_tlv, negotiation) _.
              Ensures-bind _ (decode_oid_tlv-Ends oid_tlv) λ oid _.
                Ensures-if (not (oid_eq oid spnego)) (λ _. rejected)
                  λ _.
                    Ensures-bind _ (decode_negotiation-HasMechTypes negotiation)
                      expect_init-HasMechTypes)
        (λ _. decode_negotiation-HasMechTypes (first ∷ bytes))

  token_id_from_bytes-Ends : (bytes : Bytes) → Ends (token_id_from_bytes {F = F} bytes)
  unfolding token_id_from_bytes
  token_id_from_bytes-Ends bytes =
      Ensures-if (text_eq bytes (token_id_bytes ap_req)) (λ _. holds tt)
        λ _.
          Ensures-if (text_eq bytes (token_id_bytes ap_rep)) (λ _. holds tt)
            λ _.
              Ensures-if (text_eq bytes (token_id_bytes krb_error)) (λ _. holds tt) (λ _. rejected)

  read_bytes-Ends : (len : ℕ) (bytes : Bytes) → Ends (read_bytes {F = F} len bytes)
  unfolding read_bytes
  read_bytes-Ends len bytes = Ensures-if (ltb (length bytes) len) (λ _. rejected) (λ _. holds tt)

  mech_message-HasMessage :
      (oid : ObjectIdentifier) (token_id : Krb5TokenId) (message : Bytes)
      → Ensures HasMessage (mech_message {F = F} oid token_id message)
  mech_message-HasMessage oid token_id [] = rejected
  mech_message-HasMessage oid token_id (byte ∷ bytes) = holds (omega arith)

  pub decode_mech_token-HasMessage :
      (bytes : Bytes) → Ensures HasMessage (decode_mech_token {F = F} bytes)
  unfolding decode_mech_token
  decode_mech_token-HasMessage bytes = Ensures-bind _ (read_tlv-Splits bytes) λ (token, rest) _.
      Ensures-bind _ (finish-Ends rest) λ _ _.
        Ensures-if (not (token.tag == tag_application_0)) (λ _. rejected)
          λ _. Ensures-bind _ (read_tlv-Splits token.value) λ (oid_tlv, content) _.
            Ensures-bind _ (decode_oid_tlv-Ends oid_tlv) λ oid _.
              Ensures-if (not (oid_eq oid krb5)) (λ _. rejected)
                λ _. Ensures-bind _ (read_bytes-Ends 2 content) λ (tok_id, message) _.
                  Ensures-bind _ (token_id_from_bytes-Ends tok_id)
                    λ token_id _. mech_message-HasMessage oid token_id message

  raw_result-HasMechTypes :
      (bytes : Bytes) (e : Error F) (r : Result (Error F) Krb5MechToken)
      → Ensures HasMessage r
      → Ensures HasMechTypes (raw_result bytes e r)
  raw_result-HasMechTypes bytes e (ok token) h = holds (raw_token-HasMechTypes bytes token.token_id)
  raw_result-HasMechTypes bytes e (err _) h = rejected
  raw_result-HasMechTypes bytes e stuck h = absurd (Ensures-ne-stuck h refl)

  or_else_raw-HasMechTypes :
      (bytes : Bytes) (r : Result (Error F) NegotiationToken)
      → Ensures HasMechTypes r
      → Ensures HasMechTypes (or_else_raw bytes r)
  unfolding raw_krb5_negotiate_token
  or_else_raw-HasMechTypes bytes (ok token) h = h
  or_else_raw-HasMechTypes bytes (err e) h =
      raw_result-HasMechTypes bytes e (decode_mech_token bytes) (decode_mech_token-HasMessage bytes)
  or_else_raw-HasMechTypes bytes stuck h = h

  -- On every input the reading of a token, negotiated or not, keeps within the fuel of its loops, and an
  -- initial token that it returns names a mechanism at least.
  pub decode_or_raw-HasMechTypes :
      (bytes : Bytes) → Ensures HasMechTypes (decode_or_raw {F = F} bytes)
  unfolding decode_or_raw
  decode_or_raw-HasMechTypes bytes =
      or_else_raw-HasMechTypes bytes (decode_spnego bytes) (decode_spnego-HasMechTypes bytes)

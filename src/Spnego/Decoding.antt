-- ===== src/Spnego/Decoding.antt =====
-- The decoders of the negotiation tokens of src/spnego.rs. A token's fields are read in a loop over the
-- values of a sequence; each round takes a byte at least, so their number is fuel enough.
use rskrb.Prelude.{
  ℕ, zero, suc, not, List, [], ◌∷◌, Option, none, some, ◌==◌, if◌then◌else◌, length,
}
use rskrb.Prelude.Text.{codes}
use rskrb.Result.{Result, ok, err, stuck, bind}
use rskrb.Wire.{Bytes}
use rskrb.Spnego.{
  ObjectIdentifier, Error, Tlv, empty_input, unexpected_tag, unexpected_spnego_oid,
  missing_mech_types, wrong_negotiation_token, invalid_neg_state, tag_sequence,
  tag_object_identifier, tag_octet_string, tag_bit_string, tag_enumerated, tag_application_0,
  tag_context_0, tag_context_1, tag_context_2, tag_context_3,
}
use rskrb.Spnego.Oid.{spnego, oid_eq}
use rskrb.Spnego.Reader.{read_tlv, read_single_tlv, finish, decode_oid_tlv, decode_u32}
use rskrb.Spnego.Negotiation.{
  NegState, NegTokenInit, NegTokenResp, NegotiationToken, accept_completed, accept_incomplete,
  reject, request_mic, init_token, resp_token,
}

-- The variables of the loop of `decode_neg_token_init`.
pub record InitFields : Type 0 where
  pub mech_types : Option (List ObjectIdentifier)
  pub req_flags : Option Bytes
  pub mech_token : Option Bytes
  pub mech_list_mic : Option Bytes

abbrev pub no_init_fields : InitFields
no_init_fields = record {
  mech_types = none;
  req_flags = none;
  mech_token = none;
  mech_list_mic = none;
}

abbrev pub no_resp_fields : NegTokenResp
no_resp_fields = record {
  neg_state = none;
  supported_mech = none;
  response_token = none;
  mech_list_mic = none;
}

module _ {F : Type 0} where
  -- `NegState::from_value`
  unfoldable pub state_from_value : ℕ → Result (Error F) NegState
  state_from_value value =
      if value == 0
      then ok accept_completed
      else if value == 1
      then ok accept_incomplete
      else if value == 2
      then ok reject
      else if value == 3
      then ok request_mic
      else err (invalid_neg_state value)

  unfoldable pub decode_oids : ℕ → Bytes → Result (Error F) (List ObjectIdentifier)
  decode_oids fuel [] = ok []
  decode_oids zero (byte ∷ bytes) = stuck
  decode_oids (suc fuel) (byte ∷ bytes) = bind (read_tlv (byte ∷ bytes)) λ (tlv, rest).
      bind (decode_oid_tlv tlv) λ oid. bind (decode_oids fuel rest) λ oids. ok (oid ∷ oids)

  -- The arms of the match on the tag.
  unfoldable pub init_field : InitFields → Tlv → Result (Error F) InitFields
  init_field fields field =
      if field.tag == tag_context_0
      then (bind (read_single_tlv field.value tag_sequence) λ sequence.
          bind (decode_oids (length sequence.value) sequence.value)
            λ oids. ok (record fields { mech_types = some oids }))
      else if field.tag == tag_context_1
      then (bind (read_single_tlv field.value tag_bit_string)
          λ tlv. ok (record fields { req_flags = some tlv.value }))
      else if field.tag == tag_context_2
      then (bind (read_single_tlv field.value tag_octet_string)
          λ tlv. ok (record fields { mech_token = some tlv.value }))
      else if field.tag == tag_context_3
      then (bind (read_single_tlv field.value tag_octet_string)
          λ tlv. ok (record fields { mech_list_mic = some tlv.value }))
      else err (unexpected_tag tag_context_0 field.tag)

  unfoldable pub resp_field : NegTokenResp → Tlv → Result (Error F) NegTokenResp
  resp_field fields field =
      if field.tag == tag_context_0
      then (bind (read_single_tlv field.value tag_enumerated) λ enumerated.
          bind (decode_u32 enumerated.value) λ value.
            bind (state_from_value value) λ state. ok (record fields { neg_state = some state }))
      else if field.tag == tag_context_1
      then (bind (read_single_tlv field.value tag_object_identifier)
          λ tlv. bind (decode_oid_tlv tlv) λ oid. ok (record fields { supported_mech = some oid }))
      else if field.tag == tag_context_2
      then (bind (read_single_tlv field.value tag_octet_string)
          λ tlv. ok (record fields { response_token = some tlv.value }))
      else if field.tag == tag_context_3
      then (bind (read_single_tlv field.value tag_octet_string)
          λ tlv. ok (record fields { mech_list_mic = some tlv.value }))
      else err (unexpected_tag tag_context_0 field.tag)

  -- `while !fields.remaining().is_empty() { .. }`, for either token.
  unfoldable pub read_fields :
      {S : Type 0} → (S → Tlv → Result (Error F) S) → ℕ → Bytes → S → Result (Error F) S
  read_fields field fuel [] s = ok s
  read_fields field zero (byte ∷ bytes) s = stuck
  read_fields field (suc fuel) (byte ∷ bytes) s =
      bind (read_tlv (byte ∷ bytes))
        λ (tlv, rest). bind (field s tlv) λ s'. read_fields field fuel rest s'

  -- `mech_types.ok_or(..)?`, and the list must not be empty.
  abbrev pub required_mech_types :
      Option (List ObjectIdentifier) → Result (Error F) (List ObjectIdentifier)
  required_mech_types none = err missing_mech_types
  required_mech_types (some []) = err missing_mech_types
  required_mech_types (some (oid ∷ oids)) = ok (oid ∷ oids)

  unfoldable pub decode_neg_token_init : Bytes → Result (Error F) NegTokenInit
  decode_neg_token_init bytes = bind (read_single_tlv bytes tag_sequence) λ sequence.
      bind (read_fields init_field (length sequence.value) sequence.value no_init_fields) λ fields.
        bind (required_mech_types fields.mech_types) λ mech_types. ok (record {
          mech_types = mech_types;
          req_flags = fields.req_flags;
          mech_token = fields.mech_token;
          mech_list_mic = fields.mech_list_mic;
        })

  unfoldable pub decode_neg_token_resp : Bytes → Result (Error F) NegTokenResp
  decode_neg_token_resp bytes =
      bind (read_single_tlv bytes tag_sequence)
        λ sequence. read_fields resp_field (length sequence.value) sequence.value no_resp_fields

  unfoldable pub decode_negotiation_choice : Tlv → Result (Error F) NegotiationToken
  decode_negotiation_choice choice =
      if choice.tag == tag_context_0
      then (bind (decode_neg_token_init choice.value) λ token. ok (init_token token))
      else if choice.tag == tag_context_1
      then (bind (decode_neg_token_resp choice.value) λ token. ok (resp_token token))
      else err (unexpected_tag tag_context_0 choice.tag)

  -- `NegotiationToken::decode`
  unfoldable pub decode_negotiation : Bytes → Result (Error F) NegotiationToken
  decode_negotiation bytes =
      bind (read_tlv bytes)
        λ (choice, rest). bind (finish rest) λ _. decode_negotiation_choice choice

  -- `NegTokenInit::decode`, and what `SpnegoToken::decode` does with a wrapped token.
  abbrev pub expect_init : NegotiationToken → Result (Error F) NegTokenInit
  expect_init (init_token token) = ok token
  expect_init (resp_token token) =
      err (wrong_negotiation_token (codes "NegTokenInit") (codes "NegTokenResp"))

  -- `NegTokenResp::decode`
  abbrev pub expect_resp : NegotiationToken → Result (Error F) NegTokenResp
  expect_resp (init_token token) =
      err (wrong_negotiation_token (codes "NegTokenResp") (codes "NegTokenInit"))
  expect_resp (resp_token token) = ok token

  -- `SpnegoToken::decode`
  unfoldable pub decode_spnego : Bytes → Result (Error F) NegotiationToken
  decode_spnego [] = err empty_input
  decode_spnego (first ∷ bytes) =
      if first == tag_application_0
      then (bind (read_tlv (first ∷ bytes)) λ (token, rest). bind (finish rest) λ _.
          bind (read_tlv token.value) λ (oid_tlv, negotiation). bind (decode_oid_tlv oid_tlv) λ oid.
            if not (oid_eq oid spnego)
            then err (unexpected_spnego_oid oid)
            else bind (decode_negotiation negotiation)
                λ inner. bind (expect_init inner) λ init. ok (init_token init))
      else decode_negotiation (first ∷ bytes)

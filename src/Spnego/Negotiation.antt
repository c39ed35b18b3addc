-- ===== src/Spnego/Negotiation.antt =====
-- The negotiation tokens of src/spnego.rs: the data.
use rskrb.Prelude.{ℕ, List, [], ◌∷◌, Option, none, some}
use rskrb.Wire.{Bytes}
use rskrb.Spnego.{ObjectIdentifier}
use rskrb.Spnego.Oid.{krb5}

pub data NegState : Type 0 where
  accept_completed accept_incomplete reject request_mic : NegState

-- `NegState::value`
abbrev pub state_value : NegState → ℕ
state_value accept_completed = 0
state_value accept_incomplete = 1
state_value reject = 2
state_value request_mic = 3

pub record NegTokenInit : Type 0 where
  pub mech_types : List ObjectIdentifier
  pub req_flags : Option Bytes
  pub mech_token : Option Bytes
  pub mech_list_mic : Option Bytes

pub record NegTokenResp : Type 0 where
  pub neg_state : Option NegState
  pub supported_mech : Option ObjectIdentifier
  pub response_token : Option Bytes
  pub mech_list_mic : Option Bytes

-- `NegTokenInit::krb5`
abbrev pub init_krb5 : Bytes → NegTokenInit
init_krb5 mech_token = record {
  mech_types = krb5 ∷ [];
  req_flags = none;
  mech_token = some mech_token;
  mech_list_mic = none;
}

-- `NegTokenResp::accept_completed`, `accept_incomplete_krb5` and `reject`.
abbrev pub resp_of : NegState → Option ObjectIdentifier → NegTokenResp
resp_of state mech = record {
  neg_state = some state;
  supported_mech = mech;
  response_token = none;
  mech_list_mic = none;
}

abbrev pub resp_accept_completed : NegTokenResp
resp_accept_completed = resp_of accept_completed (some krb5)

abbrev pub resp_accept_incomplete_krb5 : NegTokenResp
resp_accept_incomplete_krb5 = resp_of accept_incomplete (some krb5)

abbrev pub resp_reject : NegTokenResp
resp_reject = resp_of reject none

abbrev pub with_response_token : NegTokenResp → Bytes → NegTokenResp
with_response_token token response_token = record token { response_token = some response_token }

-- `NegotiationToken` and `SpnegoToken` have the same variants.
pub data NegotiationToken : Type 0 where
  init_token : NegTokenInit → NegotiationToken
  resp_token : NegTokenResp → NegotiationToken

-- ===== src/Service.antt =====
-- src/service.rs: the data of the validation of an AP-REQ. `F` is the type of the errors that come
-- from the cryptography, the random source and the PAC.
pub mod Time
pub mod Replay
pub mod Messages
pub mod Validator
pub mod Validate
pub mod Conditions
pub mod Accepted
pub mod Replayed
use rskrb.Prelude.{ℕ, List, Option, Bool}
use rskrb.Prelude.Int.{ℤ}
use rskrb.Wire.{Bytes}
use rskrb.Keytab as Keytab

pub record Principal : Type 0 where
  pub realm : Bytes
  pub name_type : ℤ
  pub components : List Bytes

pub record HostAddress : Type 0 where
  pub addr_type : ℤ
  pub address : Bytes

-- A date with its offset from the epoch: seconds, rounded down, and nanoseconds.
pub record KerberosTime : Type 0 where
  pub timestamp : ℤ
  pub subsec_nanos : ℕ

-- What the source uses of the ASN.1 messages.
pub record PrincipalName : Type 0 where
  pub name_type : ℤ
  pub string : List Bytes

pub record RasnEncryptionKey : Type 0 where
  pub etype : ℤ
  pub value : Bytes

pub record EncryptedData : Type 0 where
  pub etype : ℤ
  pub kvno : Option ℕ
  pub cipher : Bytes

pub record Ticket : Type 0 where
  pub realm : Bytes
  pub sname : PrincipalName
  pub enc_part : EncryptedData

pub record ApReq : Type 0 where
  pub pvno : ℤ
  pub msg_type : ℤ
  pub ticket : Ticket
  pub authenticator : EncryptedData

pub record EncTicketPart : Type 0 where
  pub flags : List Bool
  pub key : RasnEncryptionKey
  pub crealm : Bytes
  pub cname : PrincipalName
  pub auth_time : KerberosTime
  pub start_time : Option KerberosTime
  pub end_time : KerberosTime
  pub caddr : Option (List HostAddress)
  pub authorization_data : Option (List (ℤ × Bytes))

pub record Authenticator : Type 0 where
  pub crealm : Bytes
  pub cname : PrincipalName
  pub cusec : ℤ
  pub ctime : KerberosTime
  pub subkey : Option RasnEncryptionKey
  pub seq_number : Option ℕ

-- `ap_req::Error`
pub data ApReqError (F : Type 0) : Type 0 where
  decode : Bytes → Bytes → ApReqError F
  encode : Bytes → Bytes → ApReqError F
  invalid_message : Bytes → ℤ → Bytes → ApReqError F
  unsupported_etype : ℤ → ApReqError F
  key_etype_mismatch : ℤ → ℤ → ApReqError F
  random : F → ApReqError F
  crypto : F → ApReqError F

-- `ticket::Error`
pub data TicketError (F : Type 0) : Type 0 where
  decode : Bytes → Bytes → TicketError F
  encode : Bytes → Bytes → TicketError F
  invalid_message : Bytes → ℤ → Bytes → TicketError F
  unsupported_etype : ℤ → TicketError F
  key_etype_mismatch : ℤ → ℤ → TicketError F
  random : F → TicketError F
  crypto : F → TicketError F

-- The variants of `Error` that validation raises.
pub data Error (F : Type 0) : Type 0 where
  decode : Bytes → Bytes → Error F
  encode : Bytes → Bytes → Error F
  invalid_string : Error F
  integer_out_of_range : Bytes → ℤ → Error F
  invalid_message : Bytes → ℤ → Bytes → Error F
  unsupported_etype : ℤ → Error F
  ap_req_key_etype_mismatch : ℤ → ℤ → Error F
  ticket_key_etype_mismatch : ℤ → ℤ → Error F
  keytab : Keytab.Error → Error F
  crypto : F → Error F
  random : F → Error F
  pac : F → Error F
  ticket_not_yet_valid : Bytes → Bytes → Error F
  ticket_expired : Bytes → Bytes → Error F
  client_principal_mismatch : Bytes → Bytes → Error F
  clock_skew : ℕ → Error F
  replay : Error F
  replay_cache_poisoned : Error F
  bad_client_address : Bytes → Bytes → Error F
  required_client_address_missing : Bytes → Bytes → Error F
  time_overflow : Error F

unfoldable pub ap_req_error : {F : Type 0} → ApReqError F → Error F
ap_req_error (ApReqError.decode target message) = Error.decode target message
ap_req_error (ApReqError.encode target message) = Error.encode target message
ap_req_error (ApReqError.invalid_message field expected actual) =
    Error.invalid_message field expected actual
ap_req_error (ApReqError.unsupported_etype etype) = Error.unsupported_etype etype
ap_req_error (ApReqError.key_etype_mismatch key_etype data_etype) =
    Error.ap_req_key_etype_mismatch key_etype data_etype
ap_req_error (ApReqError.random e) = Error.random e
ap_req_error (ApReqError.crypto e) = Error.crypto e

unfoldable pub ticket_error : {F : Type 0} → TicketError F → Error F
ticket_error (TicketError.decode target message) = Error.decode target message
ticket_error (TicketError.encode target message) = Error.encode target message
ticket_error (TicketError.invalid_message field expected actual) =
    Error.invalid_message field expected actual
ticket_error (TicketError.unsupported_etype etype) = Error.unsupported_etype etype
ticket_error (TicketError.key_etype_mismatch key_etype data_etype) =
    Error.ticket_key_etype_mismatch key_etype data_etype
ticket_error (TicketError.random e) = Error.random e
ticket_error (TicketError.crypto e) = Error.crypto e

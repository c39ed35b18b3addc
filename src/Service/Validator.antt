-- ===== src/Service/Validator.antt =====
-- `ServiceValidator` of src/service.rs. The two readings of the system clock, for the times of the
-- ticket and for the authenticator, are the arguments `first_clock` and `second_clock`.
use rskrb.Prelude.{
  ℕ, Bool, false, ◌&&◌, ◌||◌, List, [], ◌∷◌, Option, none, some, ltb, if◌then◌else◌, get_elem?,
}
use rskrb.Prelude.Int.{ℤ, pos, negsuc, int_eq}
use rskrb.Prelude.Text.{text_eq, join}
use rskrb.Result.{Result, ok, err, bind}
use rskrb.Utf8.{is_utf8}
use rskrb.Wire.{Bytes}
use rskrb.Keytab.Names.{slash}
use rskrb.Service.{Principal, HostAddress, PrincipalName, RasnEncryptionKey, EncTicketPart, Error}
use rskrb.Service.Time.{
  SystemTime, Duration, starts_after_skew, expired_after_skew, system_time_from_kerberos_time,
}
use rskrb.Service.Replay.{ReplayKey, ReplayCache, Heap, insert, shared_insert}
use rskrb.Keytab as Keytab

pub record ServiceValidator : Type 0 where
  pub keytab : Keytab.Keytab
  pub max_clock_skew : Duration
  pub now : Option SystemTime
  pub keytab_principal : Option (List Bytes)
  pub client_address : Option HostAddress
  pub require_client_address : Bool
  pub replay_cache : ReplayCache
  pub shared_replay_cache : Option ℕ

-- `ServiceValidator::new`, with five minutes of skew.
abbrev pub new : Keytab.Keytab → ServiceValidator
new keytab = record {
  keytab = keytab;
  max_clock_skew = 300000000000;
  now = none;
  keytab_principal = none;
  client_address = none;
  require_client_address = false;
  replay_cache = record { entries = [] };
  shared_replay_cache = none;
}

pub record ValidatedApReq (Pac : Type 0) : Type 0 where
  pub client : Principal
  pub service : Principal
  pub session_key : Keytab.EncryptionKey
  pub subkey : Option Keytab.EncryptionKey
  pub sequence_number : Option ℕ
  pub ticket_start : SystemTime
  pub ticket_end : SystemTime
  pub authenticator_ctime : SystemTime
  pub authenticator_cusec : ℕ
  pub authenticator_time : SystemTime
  pub pac : Option Pac

abbrev pub unwrap_or {ℓ} : {A : Type ℓ} → Option A → A → A
unwrap_or none d = d
unwrap_or (some a) d = a

-- `ServiceValidator::now`
abbrev pub now_of : ServiceValidator → SystemTime → SystemTime
now_of v clock = unwrap_or v.now clock

unfoldable pub name : Principal → Bytes
name p = join slash p.components

abbrev invalid_ticket_flag : ℕ
invalid_ticket_flag = 7

unfoldable pub has_invalid_flag : List Bool → Bool
has_invalid_flag flags = elim (get_elem? flags invalid_ticket_flag) [
  | none ↦ false
  | some bit ↦ bit
]

-- `ticket_addresses.iter().any(..)`
unfoldable pub any_address : HostAddress → List HostAddress → Bool
any_address client [] = false
any_address client (address ∷ rest) =
    (int_eq address.addr_type client.addr_type && text_eq address.address client.address)
    || any_address client rest

module _ {F : Type 0} where
  abbrev pub kerberos_string_to_string : Bytes → Result (Error F) Bytes
  kerberos_string_to_string value = if is_utf8 value then ok value else err Error.invalid_string

  abbrev pub strings : List Bytes → Result (Error F) (List Bytes)
  strings [] = ok []
  strings (value ∷ values) =
      bind (kerberos_string_to_string value) λ s. bind (strings values) λ ss. ok (s ∷ ss)

  unfoldable pub principal_from_parts : Bytes → PrincipalName → Result (Error F) Principal
  principal_from_parts realm name = bind (kerberos_string_to_string realm) λ r.
      bind (strings name.string)
        λ components. ok (record { realm = r; name_type = name.name_type; components = components })

  unfoldable pub encryption_key_from_rasn :
      RasnEncryptionKey → Result (Error F) Keytab.EncryptionKey
  encryption_key_from_rasn value = ok (record { etype = value.etype; value = value.value })

  -- `as_ref().map(encryption_key_from_rasn).transpose()`
  abbrev pub optional_key :
      Option RasnEncryptionKey → Result (Error F) (Option Keytab.EncryptionKey)
  optional_key none = ok none
  optional_key (some key) = bind (encryption_key_from_rasn key) λ k. ok (some k)

  unfoldable pub ticket_start_time : EncTicketPart → Result (Error F) SystemTime
  ticket_start_time enc_ticket =
      system_time_from_kerberos_time (unwrap_or enc_ticket.start_time enc_ticket.auth_time)

  unfoldable pub integer_to_u32 : Bytes → ℤ → Result (Error F) ℕ
  integer_to_u32 field (pos n) =
      if ltb n 0x100000000 then ok n else err (Error.integer_out_of_range field (pos n))
  integer_to_u32 field (negsuc n) = err (Error.integer_out_of_range field (negsuc n))

  unfoldable pub validate_ticket_times :
      ServiceValidator → SystemTime → Principal → EncTicketPart → Result (Error F) (Unit {0})
  validate_ticket_times v clock service enc_ticket =
      let now = now_of v clock in
      bind (ticket_start_time enc_ticket) λ start.
        if starts_after_skew start now v.max_clock_skew || has_invalid_flag enc_ticket.flags
        then err (Error.ticket_not_yet_valid (name service) service.realm)
        else bind (system_time_from_kerberos_time enc_ticket.end_time) λ end_time.
          if expired_after_skew now end_time v.max_clock_skew
          then err (Error.ticket_expired (name service) service.realm)
          else ok tt

  unfoldable pub validate_client_address :
      ServiceValidator → Principal → EncTicketPart → Result (Error F) (Unit {0})
  validate_client_address v service enc_ticket = elim enc_ticket.caddr [
    | none ↦
        if v.require_client_address
        then err (Error.required_client_address_missing (name service) service.realm)
        else ok tt
    | some ticket_addresses ↦ elim v.client_address [
      | none ↦ err (Error.bad_client_address (name service) service.realm)
      | some client_address ↦
          if any_address client_address ticket_addresses
          then ok tt
          else err (Error.bad_client_address (name service) service.realm)
    ]
  ]

  abbrev replay_result : Bool → Result (Error F) (Unit {0})
  replay_result inserted = if inserted then ok tt else err Error.replay

  unfoldable pub record_replay :
      Heap
      → ServiceValidator
      → ReplayKey
      → SystemTime
      → (Heap × ServiceValidator) × Result (Error F) (Unit {0})
  record_replay heap v key now = elim v.shared_replay_cache [
    | some handle ↦
        let (heap', inserted) = shared_insert {F = F} heap handle key now in
        ((heap', v), bind inserted replay_result)
    | none ↦
        let (cache, inserted) = insert v.replay_cache key now in
        ((heap, record v { replay_cache = cache }), replay_result inserted)
  ]

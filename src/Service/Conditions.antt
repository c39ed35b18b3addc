-- ===== src/Service/Conditions.antt =====
-- What the single checks of `ServiceValidator` in src/service.rs guarantee when they pass.
use rskrb.Prelude.{
  ◌+◌, ◌≤◌, ◌≡◌, ◌||◌, refl, true, false, List, [], ◌∷◌, Option, none, some, Option-cases, arith,
  inl, inr, Any, Bool-cases,
}
use rskrb.Prelude.Int.{int_eq_iff}
use rskrb.Prelude.Text.{text_eq_iff}
use rskrb.Result.{ok, Yields, yields, fails, Yields-ok, Yields-bind, Yields-guard}
use rskrb.Utf8.{is_utf8}
use rskrb.Wire.{Bytes}
use rskrb.Service.{Principal, HostAddress, PrincipalName, EncTicketPart}
use rskrb.Service.Time.{
  SystemTime, system_time_from_kerberos_time, starts_after_skew, expired_after_skew,
  starts_after_skew-false, expired_after_skew-false,
}
use rskrb.Service.Replay.{ReplayKey, Heap, get}
use rskrb.Service.Validator.{
  ServiceValidator, now_of, has_invalid_flag, any_address, principal_from_parts,
  kerberos_string_to_string, strings, validate_ticket_times, validate_client_address,
  ticket_start_time,
}

-- What the replay cache that the validator uses holds for a key.
abbrev pub cached : Heap → ServiceValidator → ReplayKey → Option SystemTime
cached heap v key = elim v.shared_replay_cache [
  | some handle ↦ get (heap handle).cache.entries key
  | none ↦ get v.replay_cache.entries key
]

-- Some address of the ticket is the client's, or the ticket has none and needs none.
abbrev pub IsAddressAccepted : ServiceValidator → Option (List HostAddress) → Type 0
IsAddressAccepted v none = v.require_client_address ≡ false
IsAddressAccepted v (some addresses) =
    (client : HostAddress) × (v.client_address ≡ some client) × Any (λ a. a ≡ client) addresses

any_address-Any :
    (client : HostAddress) (addresses : List HostAddress)
    → any_address client addresses ≡ true
    → Any (λ a. a ≡ client) addresses
unfolding any_address
any_address-Any client [] h = cc
any_address-Any client (a ∷ rest) h = ground (
  arith,
  any_address-Any client rest,
  int_eq_iff a.addr_type client.addr_type,
  text_eq_iff a.address client.address,
)

abbrev pub named : Bytes → PrincipalName → Principal
named realm name = record { realm = realm; name_type = name.name_type; components = name.string }

-- The times of the ticket, which has to have them.
pub record TimesHold (F : Type 0) (v : ServiceValidator) (clock : SystemTime) (t : EncTicketPart)
    : Type 0 where
  pub start : SystemTime
  pub end_time : SystemTime
  pub start_read : ticket_start_time {F = F} t ≡ ok start
  pub end_read : system_time_from_kerberos_time {F = F} t.end_time ≡ ok end_time
  pub started : start ≤ now_of v clock + v.max_clock_skew
  pub not_expired : now_of v clock ≤ end_time + v.max_clock_skew
  pub not_invalid : has_invalid_flag t.flags ≡ false

module _ {F : Type 0} where
  string-Yields :
      (value : Bytes) → Yields (λ s. s ≡ value) (kerberos_string_to_string {F = F} value)
  string-Yields value = elim (Bool-cases (is_utf8 value)) [
    | inl e ↦ rw e (yields refl)
    | inr e ↦ rw e fails
  ]

  strings-Yields : (values : List Bytes) → Yields (λ ss. ss ≡ values) (strings {F = F} values)
  strings-Yields [] = yields refl
  strings-Yields (value ∷ values) = Yields-bind (kerberos_string_to_string value) λ s es.
      Yields-bind (strings values) λ ss er.
        yields (cc (Yields-ok (string-Yields value) es, Yields-ok (strings-Yields values) er))

  pub principal_from_parts-Yields :
      (realm : Bytes) (name : PrincipalName)
      → Yields (λ p. p ≡ named realm name) (principal_from_parts {F = F} realm name)
  unfolding principal_from_parts
  principal_from_parts-Yields realm name =
      Yields-bind {P = λ p. p ≡ named realm name} (kerberos_string_to_string realm) λ r er.
        Yields-bind {P = λ p. p ≡ named realm name} (strings name.string) λ ss es.
          yields {a = named r (record { name_type = name.name_type; string = ss })} (
            rw (Yields-ok (string-Yields realm) er, Yields-ok (strings-Yields name.string) es) refl)

  pub ticket_times-Yields :
      (v : ServiceValidator) (clock : SystemTime) (service : Principal) (t : EncTicketPart)
      → Yields (λ _. TimesHold F v clock t) (validate_ticket_times {F = F} v clock service t)
  unfolding validate_ticket_times
  ticket_times-Yields v clock service t = Yields-bind (ticket_start_time t) λ start es.
      Yields-guard
        (starts_after_skew start (now_of v clock) v.max_clock_skew || has_invalid_flag t.flags) _
        λ g. Yields-bind (system_time_from_kerberos_time t.end_time) λ end_time ee.
          Yields-guard (expired_after_skew (now_of v clock) end_time v.max_clock_skew) _ λ g'.
            yields (record {
              start = start;
              end_time = end_time;
              start_read = es;
              end_read = ee;
              started =
                  starts_after_skew-false start (now_of v clock) v.max_clock_skew (ground arith);
              not_expired = expired_after_skew-false (now_of v clock) end_time v.max_clock_skew g';
              not_invalid = ground arith;
            })

  pub client_address-Yields :
      (v : ServiceValidator) (service : Principal) (t : EncTicketPart)
      → Yields (λ _. IsAddressAccepted v t.caddr) (validate_client_address {F = F} v service t)
  unfolding validate_client_address
  client_address-Yields v service t = elim (Option-cases t.caddr) [
    | inl e ↦ rw e (Yields-guard v.require_client_address _ λ g. yields g)
    | inr (addresses, e) ↦ rw e (elim (Option-cases v.client_address) [
      | inl e' ↦ rw e' fails
      | inr (client, e') ↦ rw e' (elim (Bool-cases (any_address client addresses)) [
        | inl m ↦ rw m (yields (client, refl, any_address-Any client addresses m))
        | inr m ↦ rw m fails
      ])
    ])
  ]

-- ===== src/Service/Accepted.antt =====
-- What `validate_ap_req` of src/service.rs has checked when it accepts a request.
use rskrb.Prelude.{
  ℕ, ◌+◌, ◌*◌, ◌≤◌, ◌≡◌, refl, List, Option, none, some, Option-cases, arith, inl, inr,
}
use rskrb.Prelude.Int.{ℤ, pos, negsuc}
use rskrb.Prelude.Text.{codes, texts_eq_iff}
use rskrb.Result.{
  ok, map_err, map_err-eq-ok, Result-cases, Yields, yields, fails, stops, Yields-ok, Yields-bind,
}
use rskrb.Wire.{Bytes}
use rskrb.Keytab.Lookup.{find_key}
use rskrb.Service.{Principal, Error, ap_req_error, ticket_error}
use rskrb.Service.Time.{
  SystemTime, checked_add, or_overflow, system_time_from_kerberos_time, abs_duration_within,
}
use rskrb.Service.Messages.{
  Primitives, decode_ap_req, decrypt_ticket_enc_part, decrypt_ap_req_authenticator,
  authenticator_usage_for_ticket,
}
use rskrb.Service.Validator.{
  ServiceValidator, now_of, principal_from_parts, encryption_key_from_rasn, validate_ticket_times,
  validate_client_address, integer_to_u32,
}
use rskrb.Service.Validate.{
  Opened, Checked, query, open_ticket, check_ticket, find_pac, verify_pac, check_client, check_skew,
  check_authenticator, check,
}
use rskrb.Service.Conditions.{
  named, TimesHold, IsAddressAccepted, principal_from_parts-Yields, ticket_times-Yields,
  client_address-Yields,
}

-- The ticket was opened with a key that the keytab has for the service.
pub record IsOpened {F Pac : Type 0} (p : Primitives F Pac) (v : ServiceValidator) (bytes : Bytes)
    (o : Opened) : Type 0 where
  pub decoded : decode_ap_req p bytes ≡ ok o.ap_req
  pub service_named : o.service ≡ named o.ap_req.ticket.realm o.ap_req.ticket.sname
  pub key_found :
      (kvno : ℕ) × (find_key v.keytab (query v o.ap_req o.service) ≡ ok (o.service_key, kvno))
  pub ticket_opened : decrypt_ticket_enc_part p o.ap_req.ticket o.service_key ≡ ok o.enc_ticket

-- The PAC of a ticket: what the primitives find in its authorization data, if it has any.
abbrev pub IsPacOf :
    {F Pac : Type 0} → Primitives F Pac → Option (List (ℤ × Bytes)) → Option Pac → Type 0
IsPacOf p none found = found ≡ none
IsPacOf p (some entries) found = p.find_pac_in_authorization_data entries ≡ ok found

-- The ticket is good for the time and the address, and its PAC is signed with the key of the service.
pub record IsTicketGood {F Pac : Type 0} (p : Primitives F Pac) (v : ServiceValidator)
    (first_clock : SystemTime) (o : Opened) (found : Option Pac) : Type 0 where
  pub times_hold : TimesHold F v first_clock o.enc_ticket
  pub address_accepted : IsAddressAccepted v o.enc_ticket.caddr
  pub pac_found : IsPacOf p o.enc_ticket.authorization_data found
  pub pac_verified : (pac : Pac) → found ≡ some pac → p.verify pac o.service_key ≡ ok tt

-- The authenticator was opened with the session key of the ticket, names the client of the ticket, and
-- is of the present.
pub record IsChecked {F Pac : Type 0} (p : Primitives F Pac) (v : ServiceValidator)
    (first_clock second_clock : SystemTime) (bytes : Bytes) (c : Checked Pac) : Type 0 where
  pub is_opened : IsOpened p v bytes c.opened
  pub is_ticket_good : IsTicketGood p v first_clock c.opened c.pac
  pub authenticator_opened :
      decrypt_ap_req_authenticator p c.opened.ap_req c.session_key
        (authenticator_usage_for_ticket c.opened.ap_req.ticket)
      ≡ ok c.authenticator
  pub session_key_read : encryption_key_from_rasn {F = F} c.opened.enc_ticket.key ≡ ok c.session_key
  pub client_named : c.client ≡ named c.authenticator.crealm c.authenticator.cname
  pub same_client : c.authenticator.cname.string ≡ c.opened.enc_ticket.cname.string
  pub ctime_read : system_time_from_kerberos_time {F = F} c.authenticator.ctime ≡ ok c.ctime
  pub cusec_read : c.authenticator.cusec ≡ pos c.cusec
  pub time_sum : c.time ≡ c.ctime + c.cusec * 1000
  pub now_read : c.now ≡ now_of v second_clock
  pub not_late : c.now ≤ c.time + v.max_clock_skew
  pub not_early : c.time ≤ c.now + v.max_clock_skew

integer_to_u32-ok :
    {F : Type 0} (field : Bytes) (z : ℤ) {n : ℕ} → integer_to_u32 {F = F} field z ≡ ok n → z ≡ pos n
unfolding integer_to_u32
integer_to_u32-ok field (pos k) h = ground arith
integer_to_u32-ok field (negsuc k) h = ground arith

check_client-ok :
    {F Pac : Type 0} (p : Primitives F Pac) (a t : Principal) {u : Unit {0}}
    → check_client p a t ≡ ok u
    → a.components ≡ t.components
unfolding check_client
check_client-ok p a t h = ground (arith, texts_eq_iff a.components t.components)

check_skew-ok :
    {F Pac : Type 0} (p : Primitives F Pac) (v : ServiceValidator) (now time : ℕ) {u : Unit {0}}
    → check_skew p v now time ≡ ok u
    → (now ≤ time + v.max_clock_skew) × (time ≤ now + v.max_clock_skew)
unfolding check_skew
check_skew-ok p v now time h = abs_duration_within now time v.max_clock_skew (ground arith)

checked_add-ok :
    {F : Type 0} (t d : ℕ) {r : ℕ} → or_overflow {F = F} (checked_add t d) ≡ ok r → r ≡ t + d
checked_add-ok t d h = ground arith

module _ {F Pac : Type 0} (p : Primitives F Pac) where
  verify_pac-Yields :
      (o : Opened) (found : Option Pac)
      → Yields
          (λ _. (pac : Pac) → found ≡ some pac → p.verify pac o.service_key ≡ ok tt)
          (verify_pac p o found)
  unfolding verify_pac
  verify_pac-Yields o none = yields (λ pac e. cc)
  verify_pac-Yields o (some pac) = elim (Result-cases (p.verify pac o.service_key)) [
    | inl (u, e) ↦ rw e (yields (λ pac' e'. cc))
    | inr (inl (f, e)) ↦ rw e fails
    | inr (inr e) ↦ rw e stops
  ]

  find_pac-Yields : (o : Opened) → Yields (IsPacOf p o.enc_ticket.authorization_data) (find_pac p o)
  unfolding find_pac
  find_pac-Yields o = elim (Option-cases o.enc_ticket.authorization_data) [
    | inl e ↦ rw e (yields refl)
    | inr (entries, e) ↦ rw e (elim (Result-cases (p.find_pac_in_authorization_data entries)) [
      | inl (found, e') ↦ rw e' (yields e')
      | inr (inl (f, e')) ↦ rw e' fails
      | inr (inr e') ↦ rw e' stops
    ])
  ]

  open_ticket-Yields :
      (v : ServiceValidator) (bytes : Bytes) → Yields (IsOpened p v bytes) (open_ticket p v bytes)
  unfolding open_ticket
  open_ticket-Yields v bytes =
      Yields-bind (map_err ap_req_error (decode_ap_req p bytes)) λ ap_req ea.
        Yields-bind (principal_from_parts ap_req.ticket.realm ap_req.ticket.sname) λ service es.
          Yields-bind (map_err Error.keytab (find_key v.keytab (query v ap_req service)))
            λ (service_key, kvno) ek.
              Yields-bind
                (map_err ticket_error (decrypt_ticket_enc_part p ap_req.ticket service_key))
                λ enc_ticket et. yields (record {
                  decoded = map_err-eq-ok _ _ ea;
                  service_named =
                      Yields-ok
                        (principal_from_parts-Yields ap_req.ticket.realm ap_req.ticket.sname) es;
                  key_found = (kvno, map_err-eq-ok _ _ ek);
                  ticket_opened = map_err-eq-ok _ _ et;
                })

  check_ticket-Yields :
      (v : ServiceValidator) (first_clock : SystemTime) (o : Opened)
      → Yields (IsTicketGood p v first_clock o) (check_ticket p v first_clock o)
  unfolding check_ticket
  check_ticket-Yields v first_clock o =
      Yields-bind (validate_ticket_times v first_clock o.service o.enc_ticket) λ _ et.
        Yields-bind (validate_client_address v o.service o.enc_ticket) λ _ ea.
          Yields-bind (find_pac p o) λ found ep. Yields-bind (verify_pac p o found) λ _ ev.
            yields (record {
              times_hold = Yields-ok (ticket_times-Yields v first_clock o.service o.enc_ticket) et;
              address_accepted = Yields-ok (client_address-Yields v o.service o.enc_ticket) ea;
              pac_found = Yields-ok (find_pac-Yields o) ep;
              pac_verified = Yields-ok (verify_pac-Yields o found) ev;
            })

  check_authenticator-Yields :
      (v : ServiceValidator) (first_clock second_clock : SystemTime) (bytes : Bytes) (o : Opened)
      (pac : Option Pac)
      → IsOpened p v bytes o
      → IsTicketGood p v first_clock o pac
      → Yields
          (IsChecked p v first_clock second_clock bytes)
          (check_authenticator p v second_clock o pac)
  unfolding check_authenticator
  check_authenticator-Yields v first_clock second_clock bytes o pac ho ht =
      Yields-bind (encryption_key_from_rasn o.enc_ticket.key) λ session_key ek.
        Yields-bind
          (map_err ap_req_error (
            decrypt_ap_req_authenticator p o.ap_req session_key
              (authenticator_usage_for_ticket o.ap_req.ticket)))
          λ a ea.
            Yields-bind (principal_from_parts o.enc_ticket.crealm o.enc_ticket.cname)
              λ ticket_client et. Yields-bind (principal_from_parts a.crealm a.cname) λ client en.
                Yields-bind (check_client p client ticket_client) λ _ es.
                  Yields-bind (integer_to_u32 (codes "authenticator.cusec") a.cusec) λ cusec eu.
                    Yields-bind (system_time_from_kerberos_time a.ctime) λ ctime ec.
                      Yields-bind (or_overflow (checked_add ctime (cusec * 1000))) λ time em.
                        Yields-bind (check_skew p v (now_of v second_clock) time) λ _ ew.
                          let client_is =
                            Yields-ok (principal_from_parts-Yields a.crealm a.cname) en in
                          let ticket_client_is =
                            Yields-ok
                              (principal_from_parts-Yields o.enc_ticket.crealm o.enc_ticket.cname)
                              et in
                          let (late, early) = check_skew-ok p v (now_of v second_clock) time ew in
                          yields (record {
                            is_opened = ho;
                            is_ticket_good = ht;
                            authenticator_opened = map_err-eq-ok _ _ ea;
                            session_key_read = ek;
                            client_named = client_is;
                            same_client = cc (
                              client_is,
                              ticket_client_is,
                              check_client-ok p client ticket_client es,
                            );
                            ctime_read = ec;
                            cusec_read = integer_to_u32-ok (codes "authenticator.cusec") a.cusec eu;
                            time_sum = checked_add-ok ctime (cusec * 1000) em;
                            now_read = refl;
                            not_late = late;
                            not_early = early;
                          })

  pub check-IsChecked :
      (v : ServiceValidator) (first_clock second_clock : SystemTime) (bytes : Bytes)
      → Yields
          (IsChecked p v first_clock second_clock bytes)
          (check p v first_clock second_clock bytes)
  unfolding check
  check-IsChecked v first_clock second_clock bytes = Yields-bind (open_ticket p v bytes) λ o eo.
      Yields-bind (check_ticket p v first_clock o) λ pac et.
        check_authenticator-Yields v first_clock second_clock bytes o pac
          (Yields-ok (open_ticket-Yields v bytes) eo)
          (Yields-ok (check_ticket-Yields v first_clock o) et)

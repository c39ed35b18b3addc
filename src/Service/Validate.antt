-- ===== src/Service/Validate.antt =====
-- `ServiceValidator::validate_ap_req` of src/service.rs: what is computed before the replay cache is
-- asked (`check`), in three stages, then the replay cache, then the result (`finish`).
use rskrb.Prelude.{ℕ, ◌*◌, not, Option, none, some, ltb, if◌then◌else◌}
use rskrb.Prelude.Text.{texts_eq, codes}
use rskrb.Result.{Result, ok, err, stuck, bind, map_err}
use rskrb.Wire.{Bytes}
use rskrb.Keytab.Lookup.{Query, find_key}
use rskrb.Service.{
  Principal, ApReq, EncTicketPart, Authenticator, Error, ap_req_error, ticket_error,
}
use rskrb.Service.Time.{
  SystemTime, checked_add, abs_duration, system_time_from_kerberos_time, or_overflow,
}
use rskrb.Service.Replay.{ReplayKey, Heap}
use rskrb.Service.Messages.{
  Primitives, decode_ap_req, decrypt_ticket_enc_part, decrypt_ap_req_authenticator,
  authenticator_usage_for_ticket,
}
use rskrb.Service.Validator.{
  ServiceValidator, ValidatedApReq, now_of, unwrap_or, name, principal_from_parts,
  encryption_key_from_rasn, optional_key, ticket_start_time, integer_to_u32, validate_ticket_times,
  validate_client_address, record_replay,
}
use rskrb.Keytab as Keytab

-- The request with its ticket opened by a key of the keytab.
pub record Opened : Type 0 where
  pub ap_req : ApReq
  pub service : Principal
  pub service_key : Keytab.EncryptionKey
  pub enc_ticket : EncTicketPart

-- The authenticator and what was compared.
pub record Checked (Pac : Type 0) : Type 0 where
  pub opened : Opened
  pub pac : Option Pac
  pub session_key : Keytab.EncryptionKey
  pub authenticator : Authenticator
  pub ticket_client : Principal
  pub client : Principal
  pub cusec : ℕ
  pub ctime : SystemTime
  pub time : SystemTime
  pub now : SystemTime

abbrev pub replay_key : {Pac : Type 0} → Checked Pac → ReplayKey
replay_key c = record {
  service = c.opened.service;
  client = c.client;
  ctime_seconds = c.authenticator.ctime.timestamp;
  cusec = c.cusec;
}

-- What the keytab is asked for.
abbrev pub query : ServiceValidator → ApReq → Principal → Query
query v ap_req service = record {
  components = unwrap_or v.keytab_principal service.components;
  realm = service.realm;
  kvno = unwrap_or ap_req.ticket.enc_part.kvno 0;
  etype = ap_req.ticket.enc_part.etype;
}

-- `Duration::from_micros(cusec)`
abbrev pub from_micros : ℕ → ℕ
from_micros cusec = cusec * 1000

module _ {F Pac : Type 0} (p : Primitives F Pac) where
  unfoldable pub open_ticket : ServiceValidator → Bytes → Result (Error F) Opened
  open_ticket v bytes = bind (map_err ap_req_error (decode_ap_req p bytes)) λ ap_req.
      bind (principal_from_parts ap_req.ticket.realm ap_req.ticket.sname) λ service.
        bind (map_err Error.keytab (find_key v.keytab (query v ap_req service)))
          λ (service_key, kvno).
            bind (map_err ticket_error (decrypt_ticket_enc_part p ap_req.ticket service_key))
              λ enc_ticket. ok (record {
                ap_req = ap_req;
                service = service;
                service_key = service_key;
                enc_ticket = enc_ticket;
              })

  unfoldable pub find_pac : Opened → Result (Error F) (Option Pac)
  find_pac o = elim o.enc_ticket.authorization_data [
    | none ↦ ok none
    | some authorization_data ↦
        map_err Error.pac (p.find_pac_in_authorization_data authorization_data)
  ]

  unfoldable pub verify_pac : Opened → Option Pac → Result (Error F) (Unit {0})
  verify_pac o none = ok tt
  verify_pac o (some pac) = map_err Error.pac (p.verify pac o.service_key)

  -- The times, the addresses and the PAC of the ticket.
  unfoldable pub check_ticket :
      ServiceValidator → SystemTime → Opened → Result (Error F) (Option Pac)
  unfolding find_pac verify_pac
  check_ticket v first_clock o =
      bind (validate_ticket_times v first_clock o.service o.enc_ticket) λ _.
        bind (validate_client_address v o.service o.enc_ticket)
          λ _. bind (find_pac o) λ pac. bind (verify_pac o pac) λ _. ok pac

  unfoldable pub check_client : Principal → Principal → Result (Error F) (Unit {0})
  check_client authenticator_client ticket_client =
      if not (texts_eq authenticator_client.components ticket_client.components)
      then err (Error.client_principal_mismatch (name ticket_client) (name authenticator_client))
      else ok tt

  unfoldable pub check_skew :
      ServiceValidator → SystemTime → SystemTime → Result (Error F) (Unit {0})
  check_skew v now authenticator_time =
      if ltb v.max_clock_skew (abs_duration now authenticator_time)
      then err (Error.clock_skew v.max_clock_skew)
      else ok tt

  unfoldable pub check_authenticator :
      ServiceValidator → SystemTime → Opened → Option Pac → Result (Error F) (Checked Pac)
  unfolding check_client check_skew
  check_authenticator v second_clock o pac =
      bind (encryption_key_from_rasn o.enc_ticket.key) λ session_key.
        bind
          (map_err ap_req_error (
            decrypt_ap_req_authenticator p o.ap_req session_key
              (authenticator_usage_for_ticket o.ap_req.ticket)))
          λ authenticator.
            bind (principal_from_parts o.enc_ticket.crealm o.enc_ticket.cname) λ ticket_client.
              bind (principal_from_parts authenticator.crealm authenticator.cname) λ client.
                bind (check_client client ticket_client) λ _.
                  bind (integer_to_u32 (codes "authenticator.cusec") authenticator.cusec) λ cusec.
                    bind (system_time_from_kerberos_time authenticator.ctime) λ ctime.
                      bind (or_overflow (checked_add ctime (from_micros cusec))) λ time.
                        bind (check_skew v (now_of v second_clock) time) λ _. ok (record {
                          opened = o;
                          pac = pac;
                          session_key = session_key;
                          authenticator = authenticator;
                          ticket_client = ticket_client;
                          client = client;
                          cusec = cusec;
                          ctime = ctime;
                          time = time;
                          now = now_of v second_clock;
                        })

  unfoldable pub check :
      ServiceValidator → SystemTime → SystemTime → Bytes → Result (Error F) (Checked Pac)
  unfolding open_ticket check_ticket check_authenticator
  check v first_clock second_clock bytes =
      bind (open_ticket v bytes)
        λ o. bind (check_ticket v first_clock o) λ pac. check_authenticator v second_clock o pac

  unfoldable pub finish : Checked Pac → Result (Error F) (ValidatedApReq Pac)
  finish c = bind (optional_key c.authenticator.subkey) λ subkey.
      bind (ticket_start_time c.opened.enc_ticket) λ ticket_start.
        bind (system_time_from_kerberos_time c.opened.enc_ticket.end_time) λ ticket_end.
          ok (record {
            client = c.client;
            service = c.opened.service;
            session_key = c.session_key;
            subkey = subkey;
            sequence_number = c.authenticator.seq_number;
            ticket_start = ticket_start;
            ticket_end = ticket_end;
            authenticator_ctime = c.ctime;
            authenticator_cusec = c.cusec;
            authenticator_time = c.time;
            pac = c.pac;
          })

  abbrev pub accept :
      Heap
      → ServiceValidator
      → Result (Error F) (Checked Pac)
      → (Heap × ServiceValidator) × Result (Error F) (ValidatedApReq Pac)
  accept heap v (err e) = ((heap, v), err e)
  accept heap v stuck = ((heap, v), stuck)
  accept heap v (ok c) =
      let (state, recorded) = record_replay {F = F} heap v (replay_key c) c.now in
      (state, bind recorded λ _. finish c)

  unfoldable pub validate_ap_req :
      Heap
      → ServiceValidator
      → SystemTime
      → SystemTime
      → Bytes
      → (Heap × ServiceValidator) × Result (Error F) (ValidatedApReq Pac)
  unfolding check finish
  validate_ap_req heap v first_clock second_clock bytes =
      accept heap v (check v first_clock second_clock bytes)

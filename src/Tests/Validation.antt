-- ===== src/Tests/Validation.antt =====
-- A request, the validators that see it and their replay caches.
use rskrb.Prelude.{
  ℕ, ◌+◌, ◌*◌, ◌≡◌, ◌≢◌, ◌↔◌, inl, refl, true, false, [], ◌∷◌, none, some, arith, leb,
  if◌then◌else◌,
}
use rskrb.Prelude.Int.{ℤ, pos, negsuc}
use rskrb.Prelude.Text.{codes, text_eq, texts_eq, same_components}
use rskrb.Utf8.{is_utf8}
use rskrb.Keytab.Lookup.{find_key}
use rskrb.Result.{ok, err}
use rskrb.Service.{PrincipalName, KerberosTime, ApReq, EncTicketPart, Authenticator, Error}
use rskrb.Service.Time.{
  SystemTime, starts_after_skew, expired_after_skew, abs_duration, second, unix_epoch,
  kerberos_time, system_time_from_kerberos_time, unix_timestamp_parts,
  unix_timestamp_parts-system_time_from_kerberos_time, unix_timestamp_parts-before_epoch,
}
use rskrb.Service.Replay.{
  ReplayKey, ReplayCache, Heap, get, hash_insert, key_eq, insert, shared_insert, len,
  clear_older_than_at, with_name_type, insert-get,
}
use rskrb.Service.Replay.Expiry.{IsDistinct, clear_older_than_at-get}
use rskrb.Service.Messages.{
  Primitives, decode_ap_req, decrypt_ticket_enc_part, decrypt_ap_req_authenticator, from_etype_id,
  authenticator_usage_for_ticket,
}
use rskrb.Service.Validator.{
  ServiceValidator, ValidatedApReq, new, principal_from_parts, validate_ticket_times,
  validate_client_address, ticket_start_time, has_invalid_flag, encryption_key_from_rasn,
  integer_to_u32, record_replay,
}
use rskrb.Service.Validate.{Checked, replay_key, finish, validate_ap_req}
use rskrb.Service.Accepted.{IsChecked}
use rskrb.Service.Conditions.{cached}
use rskrb.Service.Replayed.{
  after, done, next, validate_ap_req-accepted, validate_ap_req-replayed,
  validate_ap_req-replayed_elsewhere,
}
use rskrb.Keytab as Keytab

abbrev service_name : PrincipalName
service_name = record { name_type = pos 2; string = codes "HTTP" ∷ codes "h" ∷ [] }

abbrev client_name : PrincipalName
client_name = record { name_type = pos 1; string = codes "u" ∷ [] }

abbrev at : ℕ → KerberosTime
at seconds = kerberos_time (pos seconds) 0

abbrev request : ApReq
request = record {
  pvno = pos 5;
  msg_type = pos 14;
  ticket = record {
    realm = codes "R";
    sname = service_name;
    enc_part = record { etype = pos 18; kvno = none; cipher = [] };
  };
  authenticator = record { etype = pos 18; kvno = none; cipher = [] };
}

abbrev enc_ticket_part : EncTicketPart
enc_ticket_part = record {
  flags = [];
  key = record { etype = pos 18; value = 1 ∷ [] };
  crealm = codes "R";
  cname = client_name;
  auth_time = at 100;
  start_time = none;
  end_time = at 1000;
  caddr = none;
  authorization_data = some ((pos 1, 3 ∷ []) ∷ []);
}

abbrev read_authenticator : Authenticator
read_authenticator = record {
  crealm = codes "R";
  cname = client_name;
  cusec = pos 5;
  ctime = at 200;
  subkey = none;
  seq_number = some 1;
}

-- A decoder and a cipher for which all messages are the ones above.
abbrev primitives : Primitives ℕ ℕ
primitives = record {
  decode_ap_req_der = λ bytes. ok request;
  decode_enc_ticket_part_der = λ bytes. ok enc_ticket_part;
  decode_authenticator_der = λ bytes. ok read_authenticator;
  decrypt_message = λ etype key cipher usage. ok [];
  find_pac_in_authorization_data = λ entries. ok (some 4);
  verify = λ pac key. if text_eq key.value (9 ∷ []) then ok tt else err 0;
  to_string = λ n. [];
}

abbrev service_key : Keytab.EncryptionKey
service_key = record { etype = pos 18; value = 9 ∷ [] }

abbrev service_keytab : Keytab.Keytab
service_keytab = record {
  version = 2;
  entries =
      record {
        principal = record {
          realm = codes "R";
          components = codes "HTTP" ∷ codes "h" ∷ [];
          name_type = pos 1;
        };
        timestamp = 0;
        kvno8 = 1;
        key = service_key;
        kvno = 1;
      }
      ∷ [];
}

abbrev own_cache : ServiceValidator
own_cache = new service_keytab

abbrev shared_cache : ServiceValidator
shared_cache = record own_cache { shared_replay_cache = some 0 }

abbrev empty_heap : Heap
empty_heap i = record { poisoned = false; cache = record { entries = [] } }

-- 210 seconds after the epoch.
abbrev clock : SystemTime
clock = unix_epoch + 210 * second

abbrev validated : ValidatedApReq ℕ
validated = record {
  client = record { realm = codes "R"; name_type = pos 1; components = codes "u" ∷ [] };
  service = record {
    realm = codes "R";
    name_type = pos 2;
    components = codes "HTTP" ∷ codes "h" ∷ [];
  };
  session_key = record { etype = pos 18; value = 1 ∷ [] };
  subkey = none;
  sequence_number = some 1;
  ticket_start = unix_epoch + 100 * second;
  ticket_end = unix_epoch + 1000 * second;
  authenticator_ctime = unix_epoch + 200 * second;
  authenticator_cusec = 5;
  authenticator_time = unix_epoch + 200 * second + 5000;
  pac = some 4;
}

request-accepted : (validate_ap_req primitives empty_heap own_cache clock clock []).1 ≡ ok validated
unfolding validate_ap_req decode_ap_req principal_from_parts is_utf8 find_key text_eq
    same_components decrypt_ticket_enc_part from_etype_id validate_ticket_times ticket_start_time
    system_time_from_kerberos_time starts_after_skew has_invalid_flag expired_after_skew
    validate_client_address encryption_key_from_rasn decrypt_ap_req_authenticator texts_eq
    authenticator_usage_for_ticket hash_insert key_eq abs_duration integer_to_u32 record_replay
    insert shared_insert
request-accepted = refl

request-accepted_shared :
    (validate_ap_req primitives empty_heap shared_cache clock clock []).1 ≡ ok validated
unfolding validate_ap_req decode_ap_req principal_from_parts is_utf8 find_key text_eq
    same_components decrypt_ticket_enc_part from_etype_id validate_ticket_times ticket_start_time
    system_time_from_kerberos_time starts_after_skew has_invalid_flag expired_after_skew
    validate_client_address encryption_key_from_rasn decrypt_ap_req_authenticator texts_eq
    authenticator_usage_for_ticket hash_insert key_eq abs_duration integer_to_u32 record_replay
    insert shared_insert
request-accepted_shared = refl

-- The second time it is a replay.
request-refused :
    (validate_ap_req primitives
      (after primitives empty_heap own_cache clock clock []).0
      (after primitives empty_heap own_cache clock clock []).1
      clock
      clock
      []).1
    ≡ err Error.replay
unfolding validate_ap_req decode_ap_req principal_from_parts is_utf8 find_key text_eq
    same_components decrypt_ticket_enc_part from_etype_id validate_ticket_times ticket_start_time
    system_time_from_kerberos_time starts_after_skew has_invalid_flag expired_after_skew
    validate_client_address encryption_key_from_rasn decrypt_ap_req_authenticator texts_eq
    authenticator_usage_for_ticket hash_insert key_eq abs_duration integer_to_u32 record_replay
    insert shared_insert
request-refused = refl

-- Six minutes later the authenticator is too old.
request-late :
    (validate_ap_req primitives empty_heap own_cache clock (clock + 360 * second) []).1
    ≡ err (Error.clock_skew 300000000000)
unfolding validate_ap_req decode_ap_req principal_from_parts is_utf8 find_key text_eq
    same_components decrypt_ticket_enc_part from_etype_id validate_ticket_times ticket_start_time
    system_time_from_kerberos_time starts_after_skew has_invalid_flag expired_after_skew
    validate_client_address encryption_key_from_rasn decrypt_ap_req_authenticator texts_eq
    authenticator_usage_for_ticket hash_insert key_eq abs_duration integer_to_u32 record_replay
    insert shared_insert
request-late = refl

validate_ap_req-accepted_example :
    (c : Checked ℕ) × IsChecked primitives own_cache clock clock [] c
    × (finish primitives c ≡ ok validated)
    × (cached empty_heap own_cache (replay_key c) ≡ none)
    × (cached
          (after primitives empty_heap own_cache clock clock []).0
          (after primitives empty_heap own_cache clock clock []).1
          (replay_key c)
        ≡ some c.now)
validate_ap_req-accepted_example =
    validate_ap_req-accepted primitives empty_heap own_cache clock clock [] request-accepted

abbrev later_state : Heap × ServiceValidator
later_state =
    after primitives (after primitives empty_heap own_cache clock clock []).0
      (after primitives empty_heap own_cache clock clock []).1 (clock + 1) (clock + 2) (7 ∷ [])

validate_ap_req-replayed_example :
    (validate_ap_req primitives later_state.0 later_state.1 (clock + 3) (clock + 4) []).1
    ≢ ok validated
validate_ap_req-replayed_example =
    validate_ap_req-replayed primitives empty_heap own_cache clock clock [] later_state.0
      later_state.1 (clock + 3) (clock + 4) validated request-accepted
      (next (after primitives empty_heap own_cache clock clock []).0
        (after primitives empty_heap own_cache clock clock []).1 (clock + 1) (clock + 2) (7 ∷ [])
        done)

abbrev other_validator : ServiceValidator
other_validator = record shared_cache { max_clock_skew = 600000000000 }

validate_ap_req-replayed_elsewhere_example :
    (validate_ap_req primitives
      (after primitives empty_heap shared_cache clock clock []).0
      other_validator
      (clock + 1)
      (clock + 1)
      []).1
    ≢ ok validated
validate_ap_req-replayed_elsewhere_example =
    validate_ap_req-replayed_elsewhere primitives empty_heap shared_cache other_validator 0 clock
      clock (clock + 1) (clock + 1) [] validated refl
      (record { same_keytab = refl; same_principal = refl; same_cache = refl })
      request-accepted_shared

abbrev key_of : ℕ → ReplayKey
key_of cusec = record {
  service = validated.service;
  client = validated.client;
  ctime_seconds = pos 200;
  cusec = cusec;
}

abbrev two_keys : ReplayCache
two_keys = record { entries = (key_of 1, 100) ∷ (key_of 2, 500) ∷ [] }

two_keys-IsDistinct : IsDistinct two_keys.entries
unfolding IsDistinct get key_eq text_eq texts_eq
two_keys-IsDistinct = (refl, (refl, tt))

insert-get_example :
    (((insert two_keys (key_of 1) 7).1 ≡ true) ↔ (get two_keys.entries (key_of 1) ≡ none))
    × (get (insert two_keys (key_of 1) 7).0.entries (key_of 1) ≡ some 7)
    × ((other : ReplayKey)
        → other ≢ key_of 1
        → get (insert two_keys (key_of 1) 7).0.entries other ≡ get two_keys.entries other)
    × ((name_type : ℤ)
        → name_type ≢ pos 2
        → get (insert two_keys (key_of 1) 7).0.entries (with_name_type (key_of 1) name_type)
          ≡ get two_keys.entries (with_name_type (key_of 1) name_type))
insert-get_example = insert-get two_keys (key_of 1) 7

clear_older_than_at-get_example :
    ((key : ReplayKey)
      → get (clear_older_than_at two_keys 200 600).0.entries key ≡ elim (get two_keys.entries key) [
        | none ↦ none
        | some t ↦ if leb 600 (t + 200) then some t else none
      ])
    × IsDistinct (clear_older_than_at two_keys 200 600).0.entries
    × ((clear_older_than_at two_keys 200 600).1 + len (clear_older_than_at two_keys 200 600).0
        ≡ len two_keys)
clear_older_than_at-get_example = clear_older_than_at-get two_keys 200 600 two_keys-IsDistinct

after_epoch :
    system_time_from_kerberos_time {F = ℕ} (kerberos_time (pos 3) 5) ≡ ok (unix_epoch + 3000000005)
unfolding system_time_from_kerberos_time
after_epoch = refl

unix_timestamp_parts-system_time_from_kerberos_time_example :
    unix_timestamp_parts {F = ℕ} (unix_epoch + 3000000005) ≡ ok (pos 3, 5)
unix_timestamp_parts-system_time_from_kerberos_time_example =
    unix_timestamp_parts-system_time_from_kerberos_time {F = ℕ} (pos 3) 5
      {t = unix_epoch + 3000000005} (omega arith) (inl (3, refl)) after_epoch

-- Half a second before the epoch is -1 seconds and 500000000 nanoseconds.
half_second_before :
    system_time_from_kerberos_time {F = ℕ} (kerberos_time (negsuc 0) 500000000)
    ≡ ok 9223372036854775806500000000
unfolding system_time_from_kerberos_time
half_second_before = refl

unix_timestamp_parts-before_epoch_example :
    (9223372036854775806500000000 + 2 * 500000000 + 1 * second ≡ unix_epoch + 500000000)
    × (unix_timestamp_parts {F = ℕ} 9223372036854775806500000000 ≡ ok (negsuc 1, 500000000))
unix_timestamp_parts-before_epoch_example =
    unix_timestamp_parts-before_epoch {F = ℕ} 0 500000000 {t = 9223372036854775806500000000}
      (omega arith) (omega arith) (omega arith) half_second_before

-- ===== src/Tests/CacheFile.antt =====
-- Credential caches and their bytes, and padded DER.
use rskrb.Prelude.{
  inr, ◌^◌, ◌<◌, ◌≡◌, ◌≢◌, refl, true, false, [], ◌∷◌, ◌++◌, none, some, ◌⊎◌, arith, length, All,
}
use rskrb.Prelude.Int.{pos, negsuc}
use rskrb.Prelude.Text.{codes}
use rskrb.Result.{ok, stuck, bind}
use rskrb.Wire.{Bytes}
use rskrb.Wire.Range.{IsByte}
use rskrb.Utf8.{is_utf8}
use rskrb.CCache.{Principal, Credential, CCache, HeaderField, Header, endian_for_version}
use rskrb.CCache.Parser.{parse}
use rskrb.CCache.Writer.{to_bytes}
use rskrb.CCache.Format.{IsParsed, IsPrincipal, IsCredential, IsField, cache_bytes, fields_bytes}
use rskrb.CCache.RoundTrip.{parse-to_bytes_cache}
use rskrb.CCache.Writing.{to_bytes-cache_bytes}
use rskrb.CCache.Range.{parse-ne-stuck_cache, parse-IsParsed, parse-to_bytes-parse_cache}
use rskrb.CCache.Store.{
  upsert_config_entry, upsert_credential, remove_entries_for_client, config_entry,
  config_entry_value, is_entry_of,
}
use rskrb.CCache.Store.Upsert.{find_pair, upsert_credential-find_pair}
use rskrb.Der.{trim_zero_padded_der}
use rskrb.Der.Format.{IsDer}
use rskrb.Der.Padding.{zeros, trim_zero_padded_der-zeros}
use rskrb.Tests.{all_below_256-IsByte}

abbrev alice : Principal
alice = record { realm = codes "R"; name_type = pos 1; components = codes "alice" ∷ [] }

abbrev krbtgt : Principal
krbtgt = record {
  realm = codes "R";
  name_type = pos 2;
  components = codes "krbtgt" ∷ codes "R" ∷ [];
}

abbrev tgt : Credential
tgt = record {
  client = alice;
  server = krbtgt;
  key = record { etype = pos 18; value = 1 ∷ 2 ∷ [] };
  times = record { auth_time = 1; start_time = 2; end_time = 3; renew_till = 4 };
  is_skey = false;
  ticket_flags = 0x40 ∷ 0 ∷ 0 ∷ 0 ∷ [];
  addresses = [];
  auth_data = record { ad_type = negsuc 0; contents = 5 ∷ [] } ∷ [];
  ticket = 7 ∷ [];
  second_ticket = [];
}

abbrev clock_offset : HeaderField
clock_offset = record { tag = 1; value = 0 ∷ 0 ∷ 0 ∷ 0 ∷ 0 ∷ 0 ∷ 0 ∷ 0 ∷ [] }

abbrev cache : CCache
cache = record {
  version = 4;
  header = record { fields = clock_offset ∷ [] };
  default_principal = alice;
  credentials = tgt ∷ [];
}

alice-IsPrincipal : IsPrincipal 4 alice
unfolding is_utf8
alice-IsPrincipal = record {
  realm_text = (refl, omega arith);
  components_text = ((refl, omega arith), tt);
  count_fits = omega arith;
  name_type_fits = omega arith;
  name_type_absent = λ e. absurd (omega (arith, e));
}

krbtgt-IsPrincipal : IsPrincipal 4 krbtgt
unfolding is_utf8
krbtgt-IsPrincipal = record {
  realm_text = (refl, omega arith);
  components_text = ((refl, omega arith), ((refl, omega arith), tt));
  count_fits = omega arith;
  name_type_fits = omega arith;
  name_type_absent = λ e. absurd (omega (arith, e));
}

tgt-IsCredential : IsCredential 4 tgt
tgt-IsCredential = record {
  client_valid = alice-IsPrincipal;
  server_valid = krbtgt-IsPrincipal;
  etype_fits = omega arith;
  key_fits = omega arith;
  times_fit = record {
    auth_fits = omega arith;
    start_fits = omega arith;
    end_fits = omega arith;
    renew_fits = omega arith;
  };
  flags_size = refl;
  addresses_fit = omega arith;
  addresses_valid = tt;
  auth_data_fit = omega arith;
  auth_data_valid = ((omega arith, omega arith), tt);
  ticket_fits = omega arith;
  second_ticket_fits = omega arith;
}

cache-IsParsed : IsParsed true cache
unfolding rskrb.CCache.Format.field_bytes endian_for_version
cache-IsParsed = record {
  version_low = omega arith;
  version_high = omega arith;
  fields_valid =
      (record { tag_fits = omega arith; value_fits = omega arith; offset_size = λ e. refl }, tt);
  fields_fit = omega arith;
  no_header = λ h. absurd (h refl);
  principal_valid = alice-IsPrincipal;
  credentials_valid = (tgt-IsCredential, tt);
}

cache_bytes-short : length (cache_bytes true cache) < 2 ^ 64
unfolding cache_bytes rskrb.CCache.Format.header_bytes endian_for_version
    rskrb.CCache.Format.field_bytes rskrb.CCache.Format.body_bytes
    rskrb.CCache.Format.principal_bytes rskrb.CCache.Format.credential_bytes
cache_bytes-short = omega arith

parse-to_bytes_cache_example : bind (to_bytes true cache) (parse true) ≡ ok cache
parse-to_bytes_cache_example = parse-to_bytes_cache true cache cache-IsParsed cache_bytes-short

to_bytes-cache_bytes_example : to_bytes true cache ≡ ok (cache_bytes true cache)
to_bytes-cache_bytes_example = to_bytes-cache_bytes true cache cache-IsParsed

-- A version 3 file without credentials.
abbrev small_file : Bytes
small_file =
    5 ∷ 3 ∷ 0 ∷ 0 ∷ 0 ∷ 1 ∷ 0 ∷ 0 ∷ 0 ∷ 1 ∷ 0 ∷ 0 ∷ 0 ∷ 1 ∷ 82 ∷ 0 ∷ 0 ∷ 0 ∷ 5 ∷ 97 ∷ 108 ∷ 105 ∷ 99
    ∷ 101 ∷ []

abbrev small_cache : CCache
small_cache = record {
  version = 3;
  header = record { fields = [] };
  default_principal = alice;
  credentials = [];
}

small_file-IsByte : All IsByte small_file
small_file-IsByte = all_below_256-IsByte small_file refl

parse-small_file : parse true small_file ≡ ok small_cache
unfolding parse rskrb.CCache.Parser.parse_principal rskrb.Wire.◌>>=◌ rskrb.Wire.read_i32
    rskrb.Wire.read_bytes rskrb.CCache.Parser.component_count endian_for_version
    rskrb.CCache.Parser.read_counted_string rskrb.CCache.Parser.read_data
    rskrb.CCache.Parser.read_count is_utf8 rskrb.Wire.read_many
    rskrb.CCache.Parser.parse_credentials
parse-small_file = refl

parse-ne-stuck_cache_example : parse true small_file ≢ stuck
parse-ne-stuck_cache_example = parse-ne-stuck_cache true small_file small_file-IsByte

parse-IsParsed_example : IsParsed true small_cache
parse-IsParsed_example = parse-IsParsed true small_file small_file-IsByte parse-small_file

small_cache_bytes-short : length (cache_bytes true small_cache) < 2 ^ 64
unfolding cache_bytes rskrb.CCache.Format.body_bytes rskrb.CCache.Format.principal_bytes
    endian_for_version
small_cache_bytes-short = omega arith

parse-to_bytes-parse_cache_example : bind (to_bytes true small_cache) (parse true) ≡ ok small_cache
parse-to_bytes-parse_cache_example =
    parse-to_bytes-parse_cache true small_file small_cache small_file-IsByte parse-small_file
      small_cache_bytes-short

remove_tgt : remove_entries_for_client cache alice ≡ (record cache { credentials = [] }, tgt ∷ [])
unfolding remove_entries_for_client rskrb.CCache.Store.remove_loop is_entry_of
    rskrb.CCache.Store.remove_at
remove_tgt = refl

upsert_credential-find_pair_example :
    (find_pair alice krbtgt (upsert_credential cache tgt).0.credentials ≡ some tgt)
    × ((upsert_credential cache tgt).1 ≡ find_pair alice krbtgt cache.credentials)
    × ((client server : Principal)
        → (client ≢ alice) ⊎ (server ≢ krbtgt)
        → find_pair client server (upsert_credential cache tgt).0.credentials
          ≡ find_pair client server cache.credentials)
    × ((upsert_credential cache tgt).0
        ≡ record cache { credentials = (upsert_credential cache tgt).0.credentials })
upsert_credential-find_pair_example = upsert_credential-find_pair cache tgt

-- A configuration entry is found again, and removing the client's credentials keeps it.
config_entry_found :
    config_entry_value
      (upsert_config_entry cache (codes "pa_type") none (50 ∷ [])).0
      (codes "pa_type")
      none
    ≡ some (50 ∷ [])
unfolding config_entry_value upsert_config_entry
config_entry_found = refl

-- A value of 130 bytes with a high tag number and a long length.
abbrev contents : Bytes
contents = zeros 129 ++ (7 ∷ [])

abbrev octets : Bytes
octets = 0x7f ∷ 0x81 ∷ 5 ∷ 0x81 ∷ 130 ∷ contents

octets-IsDer : IsDer octets
octets-IsDer = record {
  first = 0x7f;
  number = 0x81 ∷ 5 ∷ [];
  length_octet = 0x81;
  digits = 130 ∷ [];
  contents = contents;
  is_identifier = inr (refl, omega arith);
  is_length = inr (omega arith, omega arith, refl, refl);
  octets = refl;
}

trim_zero_padded_der-zeros_example :
    (trim_zero_padded_der (octets ++ zeros 3) ≡ octets)
    × (trim_zero_padded_der (octets ++ (0 ∷ 1 ∷ 0 ∷ [])) ≡ octets ++ (0 ∷ 1 ∷ 0 ∷ []))
trim_zero_padded_der-zeros_example =
    trim_zero_padded_der-zeros octets 3 (0 ∷ []) 1 (0 ∷ []) octets-IsDer (omega arith) (omega arith)

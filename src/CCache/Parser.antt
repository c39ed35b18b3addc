-- ===== src/CCache/Parser.antt =====
-- The parser of src/ccache.rs: `CCache::parse` and what it calls.
use rskrb.Prelude.{
  ℕ, zero, suc, Bool, ◌&&◌, not, List, [], ◌∷◌, Option, none, some, ltb, leb, ◌==◌, if◌then◌else◌,
  length, get_or, ◌+◌,
}
use rskrb.Prelude.Int.{ℤ, pos, negsuc}
use rskrb.Result.{Result, ok, err, stuck, bind}
use rskrb.Wire.{
  Bytes, Endian, Reader, ◌>>=◌, pure, lift, ok_or, read_many, checked_end, read_bytes, read_u8,
  read_u16, read_i16, read_u32, read_i32, non_negative, from_utf8,
}
use rskrb.CCache.{
  Error, too_short, invalid_first_byte, invalid_version, length_overflow, invalid_header_length,
  wire_error, HeaderField, Header, Principal, CredentialTimes, HostAddress, AuthorizationDataEntry,
  Credential, CCache, ccache_first_byte, default_header, endian_for_version, validate,
}

-- The conversion of the count to a `usize` never fails on a 64-bit host.
unfoldable pub read_count : Endian → Reader Error ℕ
read_count endian = do count ← read_i32 endian; lift (non_negative count)

unfoldable pub read_data : Endian → Reader Error Bytes
read_data endian = do len ← read_count endian; read_bytes len

unfoldable pub read_counted_string : Endian → Reader Error Bytes
read_counted_string endian = do raw ← read_data endian; lift (from_utf8 raw)

-- `i32::checked_sub(1)`
abbrev pub checked_pred32 : ℤ → Option ℤ
checked_pred32 (pos zero) = some (negsuc 0)
checked_pred32 (pos (suc n)) = some (pos n)
checked_pred32 (negsuc n) = if ltb (n + 1) 0x80000000 then some (negsuc (n + 1)) else none

-- Version 1 counts the realm as a component.
unfoldable pub component_count : ℕ → ℤ → Result Error ℤ
component_count version count =
    if version == 1 then ok_or (checked_pred32 count) length_overflow else ok count

unfoldable pub parse_principal : ℕ → Endian → Reader Error Principal
parse_principal version endian = do
  name_type ← if version == 1 then pure (pos 0) else read_i32 endian
  raw_count ← read_i32 endian
  count ← lift (component_count version raw_count)
  n ← lift (non_negative count)
  realm ← read_counted_string endian
  components ← read_many n (read_counted_string endian)
  pure (record { realm = realm; name_type = name_type; components = components })

unfoldable pub parse_field : Endian → Reader Error HeaderField
parse_field endian = do
  tag ← read_u16 endian
  field_length ← read_u16 endian
  value ← read_bytes field_length
  lift (
      bind (validate (record { tag = tag; value = value }))
        λ _. ok (record { tag = tag; value = value }))

-- `while *offset < end`
unfoldable pub parse_fields : ℕ → Endian → ℕ → Reader Error (List HeaderField)
parse_fields zero endian end bytes offset = stuck
parse_fields (suc fuel) endian end bytes offset =
    if ltb offset end
    then (bind (parse_field endian bytes offset) λ (field, offset').
        bind (parse_fields fuel endian end bytes offset')
          λ (fields, offset''). ok (field ∷ fields, offset''))
    else ok ([], offset)

-- Each round of the loop reads four bytes at least, so the length of the input is fuel enough.
unfoldable pub parse_header : Endian → Reader Error Header
parse_header endian bytes offset = bind (read_u16 endian bytes offset) λ (len, start).
    bind (checked_end bytes start len) λ end.
      bind (parse_fields (suc (length bytes)) endian end bytes start) λ (fields, offset').
        if not (offset' == end)
        then err invalid_header_length
        else ok (record { fields = fields }, offset')

unfoldable pub parse_address : Endian → Reader Error HostAddress
parse_address endian = do
  addr_type ← read_i16 endian
  address ← read_data endian
  pure (record { addr_type = addr_type; address = address })

unfoldable pub parse_auth_data : Endian → Reader Error AuthorizationDataEntry
parse_auth_data endian = do
  ad_type ← read_i16 endian
  contents ← read_data endian
  pure (record { ad_type = ad_type; contents = contents })

-- Version 3 holds the encryption type twice.
unfoldable pub read_etype : ℕ → Endian → Reader Error ℤ
read_etype version endian = do
  etype ← read_i16 endian
  if version == 3 then read_i16 endian else pure etype

unfoldable pub read_times : Endian → Reader Error CredentialTimes
read_times endian = do
  auth_time ← read_u32 endian
  start_time ← read_u32 endian
  end_time ← read_u32 endian
  renew_till ← read_u32 endian
  pure (record {
    auth_time = auth_time;
    start_time = start_time;
    end_time = end_time;
    renew_till = renew_till;
  })

unfoldable pub read_counted : {A : Type 0} → Endian → Reader Error A → Reader Error (List A)
read_counted endian read = do count ← read_count endian; read_many count read

unfoldable pub parse_credential : ℕ → Endian → Reader Error Credential
parse_credential version endian = do
  client ← parse_principal version endian
  server ← parse_principal version endian
  etype ← read_etype version endian
  value ← read_data endian
  times ← read_times endian
  is_skey ← read_u8
  ticket_flags ← read_bytes 4
  addresses ← read_counted endian (parse_address endian)
  auth_data ← read_counted endian (parse_auth_data endian)
  ticket ← read_data endian
  second_ticket ← read_data endian
  pure (record {
    client = client;
    server = server;
    key = record { etype = etype; value = value };
    times = times;
    is_skey = not (is_skey == 0);
    ticket_flags = ticket_flags;
    addresses = addresses;
    auth_data = auth_data;
    ticket = ticket;
    second_ticket = second_ticket;
  })

-- `while offset < bytes.len()`
unfoldable pub parse_credentials : ℕ → ℕ → Endian → Bytes → ℕ → Result Error (List Credential)
parse_credentials zero version endian bytes offset = stuck
parse_credentials (suc fuel) version endian bytes offset =
    if ltb offset (length bytes)
    then (bind (parse_credential version endian bytes offset) λ (credential, offset').
        bind (parse_credentials fuel version endian bytes offset')
          λ credentials. ok (credential ∷ credentials))
    else ok []

-- A credential takes a byte at least, so the length of the input is fuel enough.
unfoldable pub parse : Bool → Bytes → Result Error CCache
parse host_little bytes =
    if ltb (length bytes) 2
    then err (too_short (length bytes))
    else if not (get_or bytes 0 0 == ccache_first_byte)
    then err (invalid_first_byte (get_or bytes 0 0))
    else let version = get_or bytes 1 0 in
      if not (leb 1 version && leb version 4)
      then err (invalid_version version)
      else let endian = endian_for_version host_little version in
        bind (if version == 4 then parse_header endian bytes 2 else ok (default_header, 2))
          λ (header, offset).
            bind (parse_principal version endian bytes offset) λ (default_principal, offset').
              bind (parse_credentials (suc (length bytes)) version endian bytes offset')
                λ credentials. ok (record {
                  version = version;
                  header = header;
                  default_principal = default_principal;
                  credentials = credentials;
                })

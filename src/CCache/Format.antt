-- ===== src/CCache/Format.antt =====
-- The credential cache file format, written out as a function of the data, and the values that it
-- can hold.
use rskrb.Prelude.{
  ℕ, ◌+◌, ◌^◌, ◌≤◌, ◌<◌, ◌≡◌, ◌≢◌, true, Bool, List, [], ◌∷◌, ◌++◌, ◌==◌, if◌then◌else◌, length,
  All,
}
use rskrb.Prelude.Int.{ℤ, pos}
use rskrb.Utf8.{is_utf8}
use rskrb.Wire.{Bytes, Endian, pattern16, pattern32, to_bytes16, to_bytes32}
use rskrb.Wire.Numbers.{FitsI16, FitsI32}
use rskrb.Wire.Reads.{concat_map}
use rskrb.CCache.{
  HeaderField, Header, Principal, CredentialTimes, HostAddress, AuthorizationDataEntry, Credential,
  CCache, ccache_first_byte, header_field_tag_kdc_offset, endian_for_version,
}
use rskrb.CCache.Writer.{from_bool}

abbrev pub data_bytes : Endian → Bytes → Bytes
data_bytes e s = to_bytes32 e (length s) ++ s

abbrev pub counted_bytes : {A : Type 0} → Endian → (A → Bytes) → List A → Bytes
counted_bytes e enc xs = to_bytes32 e (length xs) ++ concat_map enc xs

abbrev pub count_of : ℕ → Principal → ℕ
count_of version p = if version == 1 then length p.components + 1 else length p.components

abbrev pub name_type_bytes : ℕ → Endian → ℤ → Bytes
name_type_bytes version e t = if version == 1 then [] else to_bytes32 e (pattern32 t)

unfoldable pub principal_bytes : ℕ → Endian → Principal → Bytes
principal_bytes version e p =
    name_type_bytes version e p.name_type
    ++ (to_bytes32 e (count_of version p)
        ++ (data_bytes e p.realm ++ concat_map (data_bytes e) p.components))

unfoldable pub field_bytes : Endian → HeaderField → Bytes
field_bytes e f = to_bytes16 e f.tag ++ (to_bytes16 e (length f.value) ++ f.value)

abbrev pub fields_bytes : Endian → Header → Bytes
fields_bytes e h = concat_map (field_bytes e) h.fields

unfoldable pub header_bytes : Endian → Header → Bytes
header_bytes e h = to_bytes16 e (length (fields_bytes e h)) ++ fields_bytes e h

abbrev pub address_bytes : Endian → HostAddress → Bytes
address_bytes e a = to_bytes16 e (pattern16 a.addr_type) ++ data_bytes e a.address

abbrev pub auth_data_bytes : Endian → AuthorizationDataEntry → Bytes
auth_data_bytes e a = to_bytes16 e (pattern16 a.ad_type) ++ data_bytes e a.contents

abbrev pub etype_bytes : ℕ → Endian → ℤ → Bytes
etype_bytes version e t =
    to_bytes16 e (pattern16 t) ++ (if version == 3 then to_bytes16 e (pattern16 t) else [])

abbrev pub times_bytes : Endian → CredentialTimes → Bytes
times_bytes e t =
    to_bytes32 e t.auth_time
    ++ (to_bytes32 e t.start_time ++ (to_bytes32 e t.end_time ++ to_bytes32 e t.renew_till))

unfoldable pub credential_bytes : ℕ → Endian → Credential → Bytes
credential_bytes version e c =
    principal_bytes version e c.client
    ++ (principal_bytes version e c.server
        ++ (etype_bytes version e c.key.etype
            ++ (data_bytes e c.key.value
                ++ (times_bytes e c.times
                    ++ ((from_bool c.is_skey ∷ [])
                        ++ (c.ticket_flags
                            ++ (counted_bytes e (address_bytes e) c.addresses
                                ++ (counted_bytes e (auth_data_bytes e) c.auth_data
                                    ++ (data_bytes e c.ticket
                                        ++ data_bytes e c.second_ticket)))))))))

unfoldable pub body_bytes : ℕ → Endian → CCache → Bytes
body_bytes version e cache =
    principal_bytes version e cache.default_principal
    ++ concat_map (credential_bytes version e) cache.credentials

unfoldable pub cache_bytes : Bool → CCache → Bytes
cache_bytes host_little cache =
    let e = endian_for_version host_little cache.version in
    ccache_first_byte
    ∷ cache.version
    ∷ ((if cache.version == 4 then header_bytes e cache.header else [])
        ++ body_bytes cache.version e cache)

-- What fits the 32-bit length in front of it, and a text that does.
abbrev pub IsData : Bytes → Type 0
IsData s = length s < 2 ^ 31

abbrev pub IsText : Bytes → Type 0
IsText s = (is_utf8 s ≡ true) × IsData s

pub record IsPrincipal (version : ℕ) (p : Principal) : Type 0 where
  pub realm_text : IsText p.realm
  pub components_text : All IsText p.components
  pub count_fits : count_of version p < 2 ^ 31
  pub name_type_fits : FitsI32 p.name_type
  pub name_type_absent : version ≡ 1 → p.name_type ≡ pos 0

-- A clock offset has eight bytes.
pub record IsField (f : HeaderField) : Type 0 where
  pub tag_fits : f.tag < 0x10000
  pub value_fits : length f.value < 0x10000
  pub offset_size : f.tag ≡ header_field_tag_kdc_offset → length f.value ≡ 8

abbrev pub IsAddress : HostAddress → Type 0
IsAddress a = FitsI16 a.addr_type × IsData a.address

abbrev pub IsAuthData : AuthorizationDataEntry → Type 0
IsAuthData a = FitsI16 a.ad_type × IsData a.contents

pub record IsTimes (t : CredentialTimes) : Type 0 where
  pub auth_fits : t.auth_time < 2 ^ 32
  pub start_fits : t.start_time < 2 ^ 32
  pub end_fits : t.end_time < 2 ^ 32
  pub renew_fits : t.renew_till < 2 ^ 32

pub record IsCredential (version : ℕ) (c : Credential) : Type 0 where
  pub client_valid : IsPrincipal version c.client
  pub server_valid : IsPrincipal version c.server
  pub etype_fits : FitsI16 c.key.etype
  pub key_fits : IsData c.key.value
  pub times_fit : IsTimes c.times
  pub flags_size : length c.ticket_flags ≡ 4
  pub addresses_fit : length c.addresses < 2 ^ 31
  pub addresses_valid : All IsAddress c.addresses
  pub auth_data_fit : length c.auth_data < 2 ^ 31
  pub auth_data_valid : All IsAuthData c.auth_data
  pub ticket_fits : IsData c.ticket
  pub second_ticket_fits : IsData c.second_ticket

-- What `parse` can return: only version 4 has a header.
pub record IsParsed (host_little : Bool) (cache : CCache) : Type 0 where
  pub version_low : 1 ≤ cache.version
  pub version_high : cache.version ≤ 4
  pub fields_valid : All IsField cache.header.fields
  pub fields_fit :
      length (fields_bytes (endian_for_version host_little cache.version) cache.header) < 0x10000
  pub no_header : cache.version ≢ 4 → cache.header.fields ≡ []
  pub principal_valid : IsPrincipal cache.version cache.default_principal
  pub credentials_valid : All (IsCredential cache.version) cache.credentials

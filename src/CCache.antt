-- ===== src/CCache.antt =====
-- src/ccache.rs: the data of a MIT credential cache file. `Endian::for_version` asks for the byte
-- order of the host (`cfg!(target_endian)`), which is the argument `host_little`.
pub mod Parser
pub mod Writer
pub mod Format
pub mod Parsing
pub mod Writing
pub mod RoundTrip
pub mod Gives
pub mod Range
pub mod Advance
pub mod Store
use rskrb.Prelude.{
  ℕ, ◌≡◌, Bool, true, false, ◌&&◌, ◌||◌, List, [], ◌∷◌, ◌==◌, not, if◌then◌else◌, length,
}
use rskrb.Prelude.Int.{ℤ}
use rskrb.Result.{Result, ok, err}
use rskrb.Wire.{Bytes, WireError, Endian, big, little}

-- The variants of `Error` that parsing and writing raise.
pub data Error : Type 0 where
  too_short : ℕ → Error
  invalid_first_byte : ℕ → Error
  invalid_version : ℕ → Error
  truncated : ℕ → ℕ → ℕ → Error
  negative_length : ℤ → Error
  length_overflow : Error
  invalid_string : Error
  invalid_header_field : ℕ → ℕ → Error
  invalid_header_length : Error

instance abbrev pub wire_error : WireError Error
wire_error = record {
  truncated = truncated;
  negative_length = negative_length;
  length_overflow = length_overflow;
  invalid_string = invalid_string;
}

pub record HeaderField : Type 0 where
  pub tag : ℕ
  pub value : Bytes

pub record Header : Type 0 where
  pub fields : List HeaderField

pub record Principal : Type 0 where
  pub realm : Bytes
  pub name_type : ℤ
  pub components : List Bytes

pub record EncryptionKey : Type 0 where
  pub etype : ℤ
  pub value : Bytes

pub record CredentialTimes : Type 0 where
  pub auth_time : ℕ
  pub start_time : ℕ
  pub end_time : ℕ
  pub renew_till : ℕ

pub record HostAddress : Type 0 where
  pub addr_type : ℤ
  pub address : Bytes

pub record AuthorizationDataEntry : Type 0 where
  pub ad_type : ℤ
  pub contents : Bytes

pub record Credential : Type 0 where
  pub client : Principal
  pub server : Principal
  pub key : EncryptionKey
  pub times : CredentialTimes
  pub is_skey : Bool
  pub ticket_flags : Bytes
  pub addresses : List HostAddress
  pub auth_data : List AuthorizationDataEntry
  pub ticket : Bytes
  pub second_ticket : Bytes

pub record CCache : Type 0 where
  pub version : ℕ
  pub header : Header
  pub default_principal : Principal
  pub credentials : List Credential

abbrev pub ccache_first_byte : ℕ
ccache_first_byte = 5

abbrev pub header_field_tag_kdc_offset : ℕ
header_field_tag_kdc_offset = 1

-- `Header::default()`
abbrev pub default_header : Header
default_header = record { fields = [] }

unfoldable pub endian_for_version : Bool → ℕ → Endian
endian_for_version host_little version =
    if (version == 1 || version == 2) && host_little then little else big

-- The offset to the clock of the KDC is two 32-bit numbers.
unfoldable pub validate : HeaderField → Result Error (Unit {0})
validate field =
    if field.tag == header_field_tag_kdc_offset && not (length field.value == 8)
    then err (invalid_header_field field.tag (length field.value))
    else ok tt

-- ===== src/CCache/Writer.antt =====
-- The writer of src/ccache.rs: `CCache::to_bytes` and what it calls. A `&mut Vec<u8>` is an argument
-- and the new list a result.
use rskrb.Prelude.{ℕ, ◌+◌, Bool, true, false, List, [], ◌∷◌, ◌++◌, ◌==◌, if◌then◌else◌, length}
use rskrb.Prelude.Int.{ℤ, pos}
use rskrb.Result.{Result, ok, bind}
use rskrb.Wire.{
  Bytes, Endian, write_i32, write_u32, write_u16, write_u16_checked, write_i16_checked,
  write_i32_len_checked,
}
use rskrb.CCache.{
  Error, wire_error, HeaderField, Header, Principal, CredentialTimes, HostAddress,
  AuthorizationDataEntry, Credential, CCache, ccache_first_byte, endian_for_version, validate,
}

unfoldable pub write_data : Bytes → Bytes → Endian → Result Error Bytes
write_data out value endian =
    bind (write_i32_len_checked out (length value) endian) λ out'. ok (out' ++ value)

unfoldable pub write_counted_string : Bytes → Bytes → Endian → Result Error Bytes
write_counted_string out value endian = write_data out value endian

-- `for item in items { item.write_to(out)? }`
unfoldable pub write_all :
    {A : Type 0} → (Bytes → A → Result Error Bytes) → Bytes → List A → Result Error Bytes
write_all write out [] = ok out
write_all write out (item ∷ items) = bind (write out item) λ out'. write_all write out' items

-- The count fits a `usize`, so `checked_add(1)` never fails.
unfoldable pub write_principal : Bytes → Principal → ℕ → Endian → Result Error Bytes
write_principal out p version endian =
    let out₁ = if version == 1 then out else write_i32 out p.name_type endian in
    let count = if version == 1 then length p.components + 1 else length p.components in
    bind (write_i32_len_checked out₁ count endian) λ out₂.
      bind (write_counted_string out₂ p.realm endian)
        λ out₃. write_all (λ o c. write_counted_string o c endian) out₃ p.components

unfoldable pub write_field : Bytes → HeaderField → Endian → Result Error Bytes
write_field body field endian = bind (validate field) λ _.
    bind (write_u16_checked (write_u16 body field.tag endian) (pos (length field.value)) endian)
      λ body'. ok (body' ++ field.value)

unfoldable pub write_header : Bytes → Header → Endian → Result Error Bytes
write_header out header endian =
    bind (write_all (λ o f. write_field o f endian) [] header.fields)
      λ body. bind (write_u16_checked out (pos (length body)) endian) λ out'. ok (out' ++ body)

unfoldable pub write_address : Bytes → HostAddress → Endian → Result Error Bytes
write_address out a endian =
    bind (write_i16_checked out a.addr_type endian) λ out'. write_data out' a.address endian

unfoldable pub write_auth_data : Bytes → AuthorizationDataEntry → Endian → Result Error Bytes
write_auth_data out a endian =
    bind (write_i16_checked out a.ad_type endian) λ out'. write_data out' a.contents endian

unfoldable pub write_etype : Bytes → ℤ → ℕ → Endian → Result Error Bytes
write_etype out etype version endian =
    bind (write_i16_checked out etype endian)
      λ out'. if version == 3 then write_i16_checked out' etype endian else ok out'

unfoldable pub write_times : Bytes → CredentialTimes → Endian → Bytes
write_times out t endian =
    write_u32
      (write_u32 (write_u32 (write_u32 out t.auth_time endian) t.start_time endian) t.end_time
        endian)
      t.renew_till endian

unfoldable pub write_counted :
    {A : Type 0} → (Bytes → A → Result Error Bytes) → Bytes → List A → Endian → Result Error Bytes
write_counted write out items endian =
    bind (write_i32_len_checked out (length items) endian) λ out'. write_all write out' items

-- `u8::from(self.is_skey)`
abbrev pub from_bool : Bool → ℕ
from_bool true = 1
from_bool false = 0

unfoldable pub write_credential : Bytes → Credential → ℕ → Endian → Result Error Bytes
write_credential out c version endian = bind (write_principal out c.client version endian) λ out₁.
    bind (write_principal out₁ c.server version endian) λ out₂.
      bind (write_etype out₂ c.key.etype version endian) λ out₃.
        bind (write_data out₃ c.key.value endian) λ out₄.
          bind
            (write_counted (λ o a. write_address o a endian)
              ((write_times out₄ c.times endian ++ (from_bool c.is_skey ∷ [])) ++ c.ticket_flags)
              c.addresses endian)
            λ out₅.
              bind (write_counted (λ o a. write_auth_data o a endian) out₅ c.auth_data endian)
                λ out₆.
                  bind (write_data out₆ c.ticket endian)
                    λ out₇. write_data out₇ c.second_ticket endian

unfoldable pub to_bytes : Bool → CCache → Result Error Bytes
to_bytes host_little cache =
    let endian = endian_for_version host_little cache.version in
    let out = ccache_first_byte ∷ cache.version ∷ [] in
    bind (if cache.version == 4 then write_header out cache.header endian else ok out) λ out₁.
      bind (write_principal out₁ cache.default_principal cache.version endian)
        λ out₂. write_all (λ o c. write_credential o c cache.version endian) out₂ cache.credentials

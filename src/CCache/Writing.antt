-- ===== src/CCache/Writing.antt =====
-- The writer of src/ccache.rs appends what the format lays out.
use rskrb.Prelude.{
  ℕ, ◌^◌, ◌<◌, ◌≡◌, sym, ap, ◌∙◌, inl, inr, Bool, List, [], ◌∷◌, ◌++◌, append_assoc, append-nil,
  arith, lt→ltb, ◌==◌, Bool-cases, if◌then◌else◌, length, All,
}
use rskrb.Prelude.Int.{ℤ, pos, negsuc}
use rskrb.Result.{Result, ok}
use rskrb.Wire.{
  Bytes, Endian, to_bytes16, to_bytes32, pattern16, write_u16_checked, write_i16_checked,
  write_i32_len_checked, write_u16, write_u32, write_i32,
}
use rskrb.Wire.Numbers.{FitsI16}
use rskrb.Wire.Reads.{concat_map}
use rskrb.CCache.{
  Error, wire_error, HeaderField, Header, Principal, HostAddress, AuthorizationDataEntry,
  Credential, CCache, endian_for_version,
}
use rskrb.CCache.Writer.{
  write_data, write_counted_string, write_all, write_principal, write_field, write_header,
  write_address, write_auth_data, write_etype, write_times, write_counted, write_credential,
  to_bytes,
}
use rskrb.CCache.Format.{
  data_bytes, counted_bytes, count_of, name_type_bytes, principal_bytes, field_bytes, fields_bytes,
  header_bytes, address_bytes, auth_data_bytes, etype_bytes, credential_bytes, body_bytes,
  cache_bytes, IsData, IsText, IsPrincipal, IsField, IsAddress, IsAuthData, IsCredential, IsParsed,
}
use rskrb.CCache.Parsing.{validate-IsField}

write_u16_checked-append :
    (out : Bytes) (n : ℕ) (e : Endian)
    → n < 0x10000
    → write_u16_checked {E = Error} out (pos n) e ≡ ok (out ++ to_bytes16 e n)
unfolding write_u16_checked write_u16
write_u16_checked-append out n e h = rw (lt→ltb n 0x10000 h)

write_i16_checked-append :
    (out : Bytes) (v : ℤ) (e : Endian)
    → FitsI16 v
    → write_i16_checked {E = Error} out v e ≡ ok (out ++ to_bytes16 e (pattern16 v))
unfolding write_i16_checked
write_i16_checked-append out (pos n) e h = rw (lt→ltb n 0x8000 h)
write_i16_checked-append out (negsuc n) e h = rw (lt→ltb n 0x8000 h)

write_i32_len_checked-append :
    (out : Bytes) (n : ℕ) (e : Endian)
    → n < 2 ^ 31
    → write_i32_len_checked {E = Error} out n e ≡ ok (out ++ to_bytes32 e n)
unfolding write_i32_len_checked write_i32
write_i32_len_checked-append out n e h = rw (lt→ltb n 0x80000000 h)

write_data-append :
    (out s : Bytes) (e : Endian) → IsData s → write_data out s e ≡ ok (out ++ data_bytes e s)
unfolding write_data
write_data-append out s e h =
    rw (write_i32_len_checked-append out (length s) e h) (ap ok (append_assoc out _ s))

write_all-append :
    {A : Type 0} (write : Bytes → A → Result Error Bytes) (enc : A → Bytes) (P : A → Type 0)
    (out : Bytes) (xs : List A)
    → ((o : Bytes) (x : A) → P x → write o x ≡ ok (o ++ enc x))
    → All P xs
    → write_all write out xs ≡ ok (out ++ concat_map enc xs)
unfolding write_all
write_all-append write enc P out [] one h = ap ok (sym (append-nil out))
write_all-append write enc P out (x ∷ xs) one (h, hs) =
    rw (one out x h)
      (write_all-append write enc P (out ++ enc x) xs one hs ∙ ap ok (append_assoc out (enc x) _))

write_counted-append :
    {A : Type 0} (write : Bytes → A → Result Error Bytes) (enc : A → Bytes) (P : A → Type 0)
    (out : Bytes) (xs : List A) (e : Endian)
    → ((o : Bytes) (x : A) → P x → write o x ≡ ok (o ++ enc x))
    → length xs < 2 ^ 31
    → All P xs
    → write_counted write out xs e ≡ ok (out ++ counted_bytes e enc xs)
unfolding write_counted
write_counted-append write enc P out xs e one fits h =
    rw (write_i32_len_checked-append out (length xs) e fits)
      (write_all-append write enc P _ xs one h ∙ ap ok (append_assoc out _ _))

name_type-append :
    (out : Bytes) (version : ℕ) (t : ℤ) (e : Endian)
    → (if version == 1 then out else write_i32 out t e) ≡ out ++ name_type_bytes version e t
unfolding write_i32
name_type-append out version t e = elim (Bool-cases (version == 1)) [
  | inl one ↦ rw (one, append-nil)
  | inr other ↦ rw other
]

write_principal-append :
    (out : Bytes) (p : Principal) (version : ℕ) (e : Endian)
    → IsPrincipal version p
    → write_principal out p version e ≡ ok (out ++ principal_bytes version e p)
unfolding write_principal principal_bytes write_counted_string
write_principal-append out p version e v =
    rw
      (
        name_type-append,
        write_i32_len_checked-append _ (count_of version p) e v.count_fits,
        write_data-append _ p.realm e (omega (arith, v.realm_text)),
        write_all-append _ _ IsText _ p.components (λ o c h. write_data-append o c e h.1)
            v.components_text,
      )
      (simp append_assoc)

write_field-append :
    (out : Bytes) (f : HeaderField) (e : Endian)
    → IsField f
    → write_field out f e ≡ ok (out ++ field_bytes e f)
unfolding write_field field_bytes write_u16
write_field-append out f e v =
    rw (validate-IsField f v, write_u16_checked-append _ (length f.value) e v.value_fits)
      (simp append_assoc)

write_header-append :
    (out : Bytes) (h : Header) (e : Endian)
    → All IsField h.fields
    → length (fields_bytes e h) < 0x10000
    → write_header out h e ≡ ok (out ++ header_bytes e h)
unfolding write_header header_bytes
write_header-append out h e v fits =
    rw
      (
        write_all-append _ (field_bytes e) IsField [] h.fields (λ o f k. write_field-append o f e k)
            v,
        write_u16_checked-append out (length (fields_bytes e h)) e fits,
      )
      (simp append_assoc)

write_address-append :
    (e : Endian) (out : Bytes) (a : HostAddress)
    → IsAddress a
    → write_address out a e ≡ ok (out ++ address_bytes e a)
unfolding write_address
write_address-append e out a (fits, small) =
    rw (write_i16_checked-append out a.addr_type e fits, write_data-append _ a.address e small)
      (simp append_assoc)

write_auth_data-append :
    (e : Endian) (out : Bytes) (a : AuthorizationDataEntry)
    → IsAuthData a
    → write_auth_data out a e ≡ ok (out ++ auth_data_bytes e a)
unfolding write_auth_data
write_auth_data-append e out a (fits, small) =
    rw (write_i16_checked-append out a.ad_type e fits, write_data-append _ a.contents e small)
      (simp append_assoc)

write_etype-append :
    (out : Bytes) (t : ℤ) (version : ℕ) (e : Endian)
    → FitsI16 t
    → write_etype out t version e ≡ ok (out ++ etype_bytes version e t)
unfolding write_etype
write_etype-append out t version e fits = elim (Bool-cases (version == 3)) [
  | inl three ↦
      rw (three, write_i16_checked-append out t e fits, write_i16_checked-append _ t e fits)
        (simp append_assoc)
  | inr other ↦ rw (other, write_i16_checked-append out t e fits) (simp append-nil)
]

write_credential-append :
    (version : ℕ) (e : Endian) (out : Bytes) (c : Credential)
    → IsCredential version c
    → write_credential out c version e ≡ ok (out ++ credential_bytes version e c)
unfolding write_credential credential_bytes write_times write_u32
write_credential-append version e out c v =
    rw
      (
        write_principal-append out c.client version e v.client_valid,
        write_principal-append _ c.server version e v.server_valid,
        write_etype-append _ c.key.etype version e v.etype_fits,
        write_data-append _ c.key.value e v.key_fits,
        write_counted-append _ (address_bytes e) IsAddress _ c.addresses e (write_address-append e)
            v.addresses_fit v.addresses_valid,
        write_counted-append _ (auth_data_bytes e) IsAuthData _ c.auth_data e
            (write_auth_data-append e) v.auth_data_fit v.auth_data_valid,
        write_data-append _ c.ticket e v.ticket_fits,
        write_data-append _ c.second_ticket e v.second_ticket_fits,
      )
      (simp append_assoc)

header-append :
    (host_little : Bool) (cache : CCache)
    → IsParsed host_little cache
    → (out : Bytes)
    → (if cache.version == 4
        then write_header out cache.header (endian_for_version host_little cache.version)
        else ok out)
      ≡ ok (
          out
          ++ (if cache.version == 4
              then header_bytes (endian_for_version host_little cache.version) cache.header
              else []))
header-append host_little cache v out = elim (Bool-cases (cache.version == 4)) [
  | inl four ↦ rw four (write_header-append out cache.header _ v.fields_valid v.fields_fit)
  | inr other ↦ rw (other, append-nil)
]

-- `to_bytes` succeeds on every cache that the format can hold, with exactly its layout.
pub to_bytes-cache_bytes :
    (host_little : Bool) (cache : CCache)
    → IsParsed host_little cache
    → to_bytes host_little cache ≡ ok (cache_bytes host_little cache)
unfolding to_bytes cache_bytes body_bytes
to_bytes-cache_bytes host_little cache v =
    let e = endian_for_version host_little cache.version in
    rw
      (
        header-append host_little cache v _,
        write_principal-append _ cache.default_principal cache.version e v.principal_valid,
        write_all-append _ (credential_bytes cache.version e) (IsCredential cache.version) _
            cache.credentials (write_credential-append cache.version e) v.credentials_valid,
      )
      (simp append_assoc)

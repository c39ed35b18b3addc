-- ===== src/CCache/RoundTrip.antt =====
-- The loops of src/ccache.rs, over header fields and over credentials, on laid-out files.
use rskrb.Prelude.{
  refl, Bool-cases, inl, inr, ◌∙◌, ◌==◌, if◌then◌else◌, ◌≤◌, ℕ, zero, suc, ◌+◌, ◌^◌, ◌<◌, ◌≡◌, ap,
  List, [], ◌∷◌, ◌++◌, append_assoc, arith, lt→ltb, le→not_ltb, length, length-append, All,
  append-nil, Bool, sym, ==_iff, le→leb,
}
use rskrb.CCache.{
  ccache_first_byte, default_header, Principal, wire_error, HeaderField, Credential, Header, CCache,
  Error, endian_for_version,
}
use rskrb.CCache.Parser.{parse, parse_fields, parse_credentials, parse_header, parse_principal}
use rskrb.CCache.Writer.{to_bytes}
use rskrb.CCache.Writing.{to_bytes-cache_bytes}
use rskrb.CCache.Format.{
  principal_bytes, data_bytes, name_type_bytes, count_of, body_bytes, IsParsed, field_bytes,
  IsField, IsCredential, credential_bytes, header_bytes, fields_bytes, cache_bytes,
}
use rskrb.Wire.{to_bytes32, Bytes, Endian, to_bytes16}
use rskrb.Wire.Numbers.{length-to_bytes32, length-to_bytes16}
use rskrb.Wire.Reads.{Reads, concat_map, Reads-u16}
use rskrb.Result.{ok, bind}
use rskrb.CCache.Parsing.{Reads-field, Reads-credential, Reads-principal}
use rskrb.Wire.Slices.{checked_end-append}

pub length-field_bytes_pos : (e : Endian) (f : HeaderField) → 0 < length (field_bytes e f)
unfolding field_bytes
length-field_bytes_pos e f = omega (
  arith,
  length-append (to_bytes16 e f.tag) (to_bytes16 e (length f.value) ++ f.value),
  length-to_bytes16 e f.tag,
)

-- The loop over the header's fields, from behind `pre` up to their end.
parse_fields-fields :
    (fs : List HeaderField) (fuel : ℕ) (e : Endian) (end : ℕ) (pre rest : Bytes)
    → All IsField fs
    → length fs < fuel
    → end ≡ length pre + length (concat_map (field_bytes e) fs)
    → length (pre ++ (concat_map (field_bytes e) fs ++ rest)) < 2 ^ 64
    → parse_fields fuel e end (pre ++ (concat_map (field_bytes e) fs ++ rest)) (length pre)
      ≡ ok (fs, end)
unfolding parse_fields
parse_fields-fields fs zero e end pre rest v hf q h = absurd (omega arith)
parse_fields-fields [] (suc fuel) e end pre rest v hf q h =
    rw (le→not_ltb (length pre) end (omega arith)) (ap (λ n. ok ([], n)) (omega arith))
parse_fields-fields (f ∷ fs) (suc fuel) e end pre rest (v, vs) hf q h =
    let enc = field_bytes e f in
    let more = concat_map (field_bytes e) fs in
    let g : (enc ++ more) ++ rest ≡ enc ++ (more ++ rest) = append_assoc enc more rest in
    let h' : length (pre ++ (enc ++ (more ++ rest))) < 2 ^ 64 = rw g at h in
    let g' : (pre ++ enc) ++ (more ++ rest) ≡ pre ++ (enc ++ (more ++ rest)) =
      append_assoc pre enc (more ++ rest) in
    let later =
      parse_fields-fields fs fuel e end (pre ++ enc) rest vs (omega arith)
        (omega (arith, length-append pre enc, length-append enc more)) (rw g' h') in
    rw (
      lt→ltb (length pre) end (omega (arith, length-append enc more, length-field_bytes_pos e f)),
      g,
      (Reads-field e f v).reads pre (more ++ rest) h',
      rw (g', length-append pre enc) at later,
    )

length-fields-le :
    (e : Endian) (fs : List HeaderField) → length fs ≤ length (concat_map (field_bytes e) fs)
length-fields-le e [] = omega arith
length-fields-le e (f ∷ fs) = omega (
  arith,
  length-append (field_bytes e f) (concat_map (field_bytes e) fs),
  length-field_bytes_pos e f,
  length-fields-le e fs,
)

Reads-header :
    (e : Endian) (h : Header)
    → All IsField h.fields
    → length (fields_bytes e h) < 0x10000
    → Reads (parse_header e) (header_bytes e h) h
unfolding parse_header header_bytes
Reads-header e h v small = record { reads = at }
  where
    body : Bytes
    body = fields_bytes e h

    size : Bytes
    size = to_bytes16 e (length body)

    at :
        (pre rest : Bytes)
        → length (pre ++ ((size ++ body) ++ rest)) < 2 ^ 64
        → parse_header e (pre ++ ((size ++ body) ++ rest)) (length pre)
          ≡ ok (h, length pre + length (size ++ body))
    at pre rest fits =
        let g : (size ++ body) ++ rest ≡ size ++ (body ++ rest) = append_assoc size body rest in
        let fits' : length (pre ++ (size ++ (body ++ rest))) < 2 ^ 64 = rw g at fits in
        let g' : pre ++ (size ++ (body ++ rest)) ≡ (pre ++ size) ++ (body ++ rest) =
          sym (append_assoc pre size (body ++ rest)) in
        let fits'' : length ((pre ++ size) ++ (body ++ rest)) < 2 ^ 64 = rw g' at fits' in
        let q : length pre + length size ≡ length (pre ++ size) = sym (length-append pre size) in
        let loop =
          parse_fields-fields h.fields (suc (length ((pre ++ size) ++ (body ++ rest)))) e
            (length (pre ++ size) + length body) (pre ++ size) rest v
            (omega (
              arith,
              length-append (pre ++ size) (body ++ rest),
              length-append body rest,
              length-fields-le e h.fields,
            ))
            refl fits'' in
        rw
          (
            g,
            (Reads-u16 {E = Error} e (length body) small).reads pre (body ++ rest) fits',
            g',
            q,
            checked_end-append {E = Error} body (pre ++ size) rest fits'',
            loop,
            (==_iff (length (pre ++ size) + length body) (length (pre ++ size) + length body)).1
                refl,
          )
          (ap (λ n. ok (h, n)) (omega (arith, length-append pre size, length-append size body)))

length-principal_bytes_pos :
    (version : ℕ) (e : Endian) (p : Principal) → 0 < length (principal_bytes version e p)
unfolding principal_bytes
length-principal_bytes_pos version e p =
    let strings = data_bytes e p.realm ++ concat_map (data_bytes e) p.components in
    let count = to_bytes32 e (count_of version p) in
    omega (
      arith,
      length-append (name_type_bytes version e p.name_type) (count ++ strings),
      length-append count strings,
      length-to_bytes32 e (count_of version p),
    )

length-credential_bytes_pos :
    (version : ℕ) (e : Endian) (c : Credential) → 0 < length (credential_bytes version e c)
unfolding credential_bytes
length-credential_bytes_pos version e c = omega (
  arith,
  length-append (principal_bytes version e c.client) _,
  length-principal_bytes_pos version e c.client,
)

-- The loop over the credentials, from behind `pre` to the end of the input.
parse_credentials-credentials :
    (cs : List Credential) (fuel version : ℕ) (e : Endian) (pre : Bytes)
    → All (IsCredential version) cs
    → length cs < fuel
    → length (pre ++ concat_map (credential_bytes version e) cs) < 2 ^ 64
    → parse_credentials fuel version e
        (pre ++ concat_map (credential_bytes version e) cs)
        (length pre)
      ≡ ok cs
unfolding parse_credentials
parse_credentials-credentials cs zero version e pre v hf h = absurd (omega arith)
parse_credentials-credentials [] (suc fuel) version e pre v hf h =
    rw (append-nil pre, le→not_ltb (length pre) (length pre) (omega arith))
parse_credentials-credentials (c ∷ cs) (suc fuel) version e pre (v, vs) hf h =
    let enc = credential_bytes version e c in
    let more = concat_map (credential_bytes version e) cs in
    let g : (pre ++ enc) ++ more ≡ pre ++ (enc ++ more) = append_assoc pre enc more in
    let later =
      parse_credentials-credentials cs fuel version e (pre ++ enc) vs (omega arith) (rw g h) in
    rw (
      lt→ltb (length pre) (length (pre ++ (enc ++ more))) (
          omega (
            arith,
            length-append pre (enc ++ more),
            length-append enc more,
            length-credential_bytes_pos version e c,
          )),
      (Reads-credential version e c v).reads pre more h,
      rw (g, length-append pre enc) at later,
    )

length-credentials-le :
    (version : ℕ) (e : Endian) (cs : List Credential)
    → length cs ≤ length (concat_map (credential_bytes version e) cs)
length-credentials-le version e [] = omega arith
length-credentials-le version e (c ∷ cs) = omega (
  arith,
  length-append (credential_bytes version e c) (concat_map (credential_bytes version e) cs),
  length-credential_bytes_pos version e c,
  length-credentials-le version e cs,
)

length-body-lt :
    (version : ℕ) (e : Endian) (cache : CCache)
    → length cache.credentials < length (body_bytes version e cache)
unfolding body_bytes
length-body-lt version e cache = omega (
  arith,
  length-append (principal_bytes version e cache.default_principal)
      (concat_map (credential_bytes version e) cache.credentials),
  length-principal_bytes_pos version e cache.default_principal,
  length-credentials-le version e cache.credentials,
)

-- The part behind the header: the principal, and from there the credentials.
parse_body :
    (host_little : Bool) (cache : CCache) (pre : Bytes)
    → IsParsed host_little cache
    → (let e = endian_for_version host_little cache.version in
        length (pre ++ body_bytes cache.version e cache) < 2 ^ 64)
    → (fuel : ℕ) → length cache.credentials < fuel
    → (let e = endian_for_version host_little cache.version in
        let bytes = pre ++ body_bytes cache.version e cache in
        (offset : ℕ) × (parse_principal cache.version e bytes (length pre)
          ≡ ok (cache.default_principal, offset))
        × (parse_credentials fuel cache.version e bytes offset ≡ ok cache.credentials))
unfolding body_bytes
parse_body host_little cache pre v fits fuel enough =
    let e = endian_for_version host_little cache.version in
    let enc = principal_bytes cache.version e cache.default_principal in
    let more = concat_map (credential_bytes cache.version e) cache.credentials in
    let g : (pre ++ enc) ++ more ≡ pre ++ (enc ++ more) = append_assoc pre enc more in
    let later =
      parse_credentials-credentials cache.credentials fuel cache.version e (pre ++ enc)
        v.credentials_valid enough (rw g fits) in
    (
      length pre + length enc,
      (Reads-principal cache.version e cache.default_principal v.principal_valid).reads pre more
          fits,
      rw (g, length-append pre enc) at later,
    )

-- The header, which only version 4 has.
parse_head :
    (host_little : Bool) (cache : CCache) (rest : Bytes)
    → IsParsed host_little cache
    → (let e = endian_for_version host_little cache.version in
        let pre = ccache_first_byte ∷ cache.version ∷ [] in
        let hdr = if cache.version == 4 then header_bytes e cache.header else [] in
        length (pre ++ (hdr ++ rest)) < 2 ^ 64
        → (if cache.version == 4
            then parse_header e (pre ++ (hdr ++ rest)) 2
            else ok (default_header, 2))
          ≡ ok (cache.header, length (pre ++ hdr)))
parse_head host_little cache rest v = elim (Bool-cases (cache.version == 4)) [
  | inl four ↦ rw four λ fits.
      (Reads-header (endian_for_version host_little cache.version) cache.header v.fields_valid
          v.fields_fit).reads
        (ccache_first_byte ∷ cache.version ∷ []) rest fits
      ∙ ap (λ n. ok (cache.header, n)) (omega arith)
  | inr other ↦ rw other λ fits. λ i. ok (record { fields = sym (v.no_header (ground arith)) i }, 2)
]

parse-cache_bytes :
    (host_little : Bool) (cache : CCache)
    → IsParsed host_little cache
    → length (cache_bytes host_little cache) < 2 ^ 64
    → parse host_little (cache_bytes host_little cache) ≡ ok cache
unfolding parse cache_bytes
parse-cache_bytes host_little cache v fits =
    let e = endian_for_version host_little cache.version in
    let hdr : Bytes = if cache.version == 4 then header_bytes e cache.header else [] in
    let pre : Bytes = ccache_first_byte ∷ cache.version ∷ hdr in
    let body = body_bytes cache.version e cache in
    let (offset, principal, credentials) =
      parse_body host_little cache pre v fits (suc (length (pre ++ body)))
        (omega (arith, length-append hdr body, length-body-lt cache.version e cache)) in
    rw (
      parse_head host_little cache body v fits,
      principal,
      credentials,
      le→not_ltb (length (pre ++ body)) 2 (omega arith),
      le→leb 1 cache.version v.version_low,
      le→leb cache.version 4 v.version_high,
    )

-- Writing a cache that the format can hold (`IsParsed`) succeeds, and parsing the bytes gives the
-- cache back, in all four versions and on hosts of both byte orders, as long as the file has a `usize`
-- length.
pub parse-to_bytes_cache :
    (host_little : Bool) (cache : CCache)
    → IsParsed host_little cache
    → length (cache_bytes host_little cache) < 2 ^ 64
    → bind (to_bytes host_little cache) (parse host_little) ≡ ok cache
parse-to_bytes_cache host_little cache v fits =
    rw (to_bytes-cache_bytes host_little cache v) (parse-cache_bytes host_little cache v fits)

-- ===== src/CCache/Range.antt =====
-- What `CCache::parse` (src/ccache.rs) returns, on any input.
use rskrb.Prelude.{
  ◌≢◌, leb, not, ◌&&◌, get_or, refl, ◌≡◌, ◌+◌, ◌++◌, ◌<◌, ◌≤◌, ◌-◌, length, length-append, ltb,
  ltb→lt, ==_iff, ℕ, zero, suc, ◌^◌, arith, ◌==◌, if◌then◌else◌, All,
}
use rskrb.Result.{
  Ensures-map, ok, err, stuck, Result, Ensures, holds, rejected, Ensures-bind, Ensures-ok,
  Ensures-ne-stuck, Ensures-if, bind,
}
use rskrb.CCache.{
  CCache, endian_for_version, ccache_first_byte, default_header, Credential, Error, wire_error,
  HeaderField, Bool, [],
}
use rskrb.CCache.Parser.{
  parse, parse_fields, parse_header, parse_credentials, parse_field, parse_credential,
}
use rskrb.CCache.Writer.{to_bytes}
use rskrb.CCache.RoundTrip.{parse-to_bytes_cache, length-field_bytes_pos}
use rskrb.CCache.Format.{IsParsed, cache_bytes, field_bytes, fields_bytes, IsField, IsCredential}
use rskrb.Wire.{Bytes, to_bytes16, ◌>>=◌, Endian}
use rskrb.Wire.Numbers.{length-to_bytes16}
use rskrb.Wire.Reads.{concat_map}
use rskrb.Wire.Range.{checked_end-Ensures, IsByte, Gives-u16}
use rskrb.CCache.Advance.{read_u16-Ensures, read_bytes-Ensures, Advances-credential}
use rskrb.CCache.Gives.{Gives-IsPrincipal, validate-Ensures, Gives-IsField, Gives-IsCredential}

-- A header field takes as many bytes as its layout has.
parse_field-moves :
    (e : Endian) (bytes : Bytes) (offset : ℕ)
    → Ensures
        (λ (f, offset'). offset' ≡ offset + length (field_bytes e f))
        (parse_field e bytes offset)
unfolding parse_field ◌>>=◌ field_bytes
parse_field-moves e bytes offset =
    Ensures-bind _ (read_u16-Ensures e bytes offset) λ (tag, o₁) moved₁.
      Ensures-bind _ (read_u16-Ensures e bytes o₁) λ (n, o₂) moved₂.
        Ensures-bind _ (read_bytes-Ensures n bytes o₂) λ (value, o₃) (moved₃, size).
          let f : HeaderField = record { tag = tag; value = value } in
          Ensures-bind {P = λ g. g ≡ f} _ (Ensures-bind _ (validate-Ensures f) λ _ _. holds refl)
            λ g same. holds (
              rw same (
                omega (
                  arith,
                  length-append (to_bytes16 e tag) (to_bytes16 e (length value) ++ value),
                  length-append (to_bytes16 e (length value)) value,
                  length-to_bytes16 e tag,
                  length-to_bytes16 e (length value),
                )))

Ensures-both :
    {A : Type 0} {P Q : A → Type 0} {r : Result Error A}
    → Ensures P r
    → Ensures Q r
    → Ensures (λ a. P a × Q a) r
Ensures-both (holds h) k = holds (h, Ensures-ok k refl)
Ensures-both rejected k = rejected

-- The fields that the loop reads lie end to end.
parse_fields-Ensures :
    (fuel : ℕ) (e : Endian) (end : ℕ) (bytes : Bytes) (offset : ℕ)
    → All IsByte bytes
    → end - offset < fuel
    → Ensures
        (λ (fs, offset').
          All IsField fs × (offset' ≡ offset + length (concat_map (field_bytes e) fs)))
        (parse_fields fuel e end bytes offset)
unfolding parse_fields
parse_fields-Ensures zero e end bytes offset hb h = absurd (omega arith)
parse_fields-Ensures (suc fuel) e end bytes offset hb h =
    Ensures-if (ltb offset end)
      (λ before.
        Ensures-bind _
          (Ensures-both ((Gives-IsField e).gives bytes offset hb)
            (parse_field-moves e bytes offset))
          λ (f, o) (valid, moved).
            Ensures-bind _
              (parse_fields-Ensures fuel e end bytes o hb
                (omega (arith, ltb→lt offset end before, length-field_bytes_pos e f)))
              λ (fs, o') (all_valid, moved'). holds (
                (valid, all_valid),
                omega (arith, length-append (field_bytes e f) (concat_map (field_bytes e) fs)),
              ))
      (λ _. holds (tt, omega arith))

parse_header-Ensures :
    (e : Endian) (bytes : Bytes) (offset : ℕ)
    → All IsByte bytes
    → Ensures
        (λ (h, _). All IsField h.fields × (length (fields_bytes e h) < 0x10000))
        (parse_header e bytes offset)
unfolding parse_header
parse_header-Ensures e bytes offset hb =
    Ensures-bind _ ((Gives-u16 {E = Error} e).gives bytes offset hb) λ (len, start) small.
      Ensures-bind _ (checked_end-Ensures bytes start len) λ end (moved, inside).
        Ensures-bind _
          (parse_fields-Ensures (suc (length bytes)) e end bytes start hb (omega arith))
          λ (fs, o) (valid, moved').
            Ensures-if (not (o == end)) (λ _. rejected)
              λ exact. holds (valid, omega (arith, (==_iff o end).0 (ground arith)))

parse_credentials-Ensures :
    (fuel version : ℕ) (e : Endian) (bytes : Bytes) (offset : ℕ)
    → All IsByte bytes
    → length bytes - offset < fuel
    → Ensures (All (IsCredential version)) (parse_credentials fuel version e bytes offset)
unfolding parse_credentials
parse_credentials-Ensures zero version e bytes offset hb h = absurd (omega arith)
parse_credentials-Ensures (suc fuel) version e bytes offset hb h =
    Ensures-if (ltb offset (length bytes))
      (λ before.
        Ensures-bind _ (credential (parse_credential version e bytes offset) refl)
          λ (c, o) (valid, moved).
            Ensures-bind _
              (parse_credentials-Ensures fuel version e bytes o hb
                (omega (arith, ltb→lt offset (length bytes) before)))
              λ cs all_valid. holds (valid, all_valid))
      (λ _. holds tt)
  where
    credential :
        (r : Result Error (Credential × ℕ))
        → parse_credential version e bytes offset ≡ r
        → Ensures (λ (c, o). IsCredential version c × (offset + 4 ≤ o)) r
    credential (ok (c, o)) q = holds (
      Ensures-ok ((Gives-IsCredential version e).gives bytes offset hb) q,
      (Advances-credential version e).moves bytes offset c o q,
    )
    credential (err x) q = rejected
    credential stuck q =
        absurd (Ensures-ne-stuck ((Gives-IsCredential version e).gives bytes offset hb) q)

head-Ensures :
    (version : ℕ) (e : Endian) (bytes : Bytes)
    → All IsByte bytes
    → Ensures
        (λ (h, _).
          All IsField h.fields
          × (length (fields_bytes e h) < 0x10000)
          × (version ≢ 4 → h.fields ≡ []))
        (if version == 4 then parse_header e bytes 2 else ok (default_header, 2))
head-Ensures version e bytes hb =
    Ensures-if (version == 4)
      (λ four.
        Ensures-map (λ (h, _) (valid, small). (valid, small, λ other. absurd (ground arith)))
          (parse_header-Ensures e bytes 2 hb))
      (λ _. holds (tt, omega arith, λ _. refl))

parse-Ensures :
    (host_little : Bool) (bytes : Bytes)
    → All IsByte bytes
    → Ensures (IsParsed host_little) (parse host_little bytes)
unfolding parse
parse-Ensures host_little bytes hb =
    Ensures-if (ltb (length bytes) 2) (λ _. rejected)
      λ long.
        Ensures-if (not (get_or bytes 0 0 == ccache_first_byte)) (λ _. rejected)
          λ _.
            Ensures-if (not (leb 1 version && leb version 4)) (λ _. rejected)
              λ known.
                Ensures-bind _ (head-Ensures version e bytes hb)
                  λ (header, offset) (valid, small, absent).
                    Ensures-bind _ ((Gives-IsPrincipal version e).gives bytes offset hb)
                      λ (p, offset') p_valid.
                        Ensures-bind _
                          (parse_credentials-Ensures (suc (length bytes)) version e bytes offset' hb
                            (omega arith))
                          λ cs all_valid. holds (record {
                            version_low = ground arith;
                            version_high = ground arith;
                            fields_valid = valid;
                            fields_fit = small;
                            no_header = absent;
                            principal_valid = p_valid;
                            credentials_valid = all_valid;
                          })
  where
    version : ℕ
    version = get_or bytes 1 0

    e : Endian
    e = endian_for_version host_little version

-- Whatever the bytes, the loops of `parse` end before their fuel does: the model never gives up where
-- the program goes on.
pub parse-ne-stuck_cache :
    (host_little : Bool) (bytes : Bytes) → All IsByte bytes → parse host_little bytes ≢ stuck
parse-ne-stuck_cache host_little bytes hb = Ensures-ne-stuck (parse-Ensures host_little bytes hb)

-- A cache that was parsed is one that the format can hold: version 1 to 4, a header in version 4
-- alone, clock offsets of eight bytes, texts that are UTF-8, and every number and every length in the
-- range of its field.
pub parse-IsParsed :
    (host_little : Bool) (bytes : Bytes) {cache : CCache}
    → All IsByte bytes
    → parse host_little bytes ≡ ok cache
    → IsParsed host_little cache
parse-IsParsed host_little bytes hb q = Ensures-ok (parse-Ensures host_little bytes hb) q

-- Parsing is stable under writing: what `parse` returned, on bytes, is written again without an
-- error, and if the file has a `usize` length it parses to the same cache.
pub parse-to_bytes-parse_cache :
    (host_little : Bool) (bytes : Bytes) (cache : CCache)
    → All IsByte bytes
    → parse host_little bytes ≡ ok cache
    → length (cache_bytes host_little cache) < 2 ^ 64
    → bind (to_bytes host_little cache) (parse host_little) ≡ ok cache
parse-to_bytes-parse_cache host_little bytes cache hb q fits =
    parse-to_bytes_cache host_little cache (parse-IsParsed host_little bytes hb q) fits

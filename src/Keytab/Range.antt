-- ===== src/Keytab/Range.antt =====
-- What `Keytab::parse` (src/keytab.rs) returns, on any input.
use rskrb.Prelude.{
  ℕ, zero, suc, ◌+◌, ◌-◌, ◌^◌, ◌≤◌, ◌<◌, ◌≡◌, ◌≢◌, refl, ◌⊎◌, Bool, List, arith, ltb, ◌==◌, not,
  ◌&&◌, get_or, if◌then◌else◌, length, take, drop, All, All-take, All-drop, Bool-cases, inl, inr,
}
use rskrb.Prelude.Int.{ℤ, pos, negsuc}
use rskrb.Result.{
  Result, ok, Ensures, holds, rejected, Ensures-bind, Ensures-if, Ensures-ok, Ensures-ne-stuck,
  stuck,
}
use rskrb.Wire.{Bytes, Endian, read_i32, pure, ok_or}
use rskrb.Wire.Numbers.{FitsI16, FitsI32}
use rskrb.Wire.Range.{
  IsByte, Gives, Gives-pure, Gives-lift, Gives-map, Gives-bind, Gives-if, read_i32-advance,
  checked_end-Ensures, Gives-many, Gives-bytes, Gives-u8, Gives-i16, Gives-u32, Gives-i32,
  Gives-utf8, non_negative-Ensures,
}
use rskrb.Keytab.{
  keytab_first_byte, Error, length_overflow, wire_error, checked_pred16, Entry, Keytab,
  endian_for_version, read_counted_string, component_count, parse_principal, read_kvno, parse_entry,
  parse_block, parse_entries, parse,
}
use rskrb.Keytab.Format.{IsText, IsPrincipal, IsEntry}

Gives-counted_string : (e : Endian) → Gives (read_counted_string e) IsText
unfolding read_counted_string
Gives-counted_string e = Gives-bind _ (Gives-i16 e) λ len fits.
    Gives-bind _ (Gives-lift (non_negative-Ensures len)) λ n len_eq.
      Gives-bind _ (Gives-bytes n) λ raw (_, raw_len).
        Gives-map (λ s (text, same). (text, rw (same, raw_len) (rw len_eq at fits)))
          (Gives-utf8 raw)

checked_pred16-Ensures :
    (raw : ℤ)
    → FitsI16 raw
    → Ensures
        (λ c. (n : ℕ) → c ≡ pos n → n + 1 < 0x8000)
        (ok_or (checked_pred16 raw) length_overflow)
checked_pred16-Ensures (pos zero) fits = holds (λ n q. cc)
checked_pred16-Ensures (pos (suc m)) fits = holds (λ n q. ground arith)
checked_pred16-Ensures (negsuc m) fits = elim (Bool-cases (ltb (m + 1) 0x8000)) [
  | inl e ↦ rw e (holds (λ n q. cc))
  | inr e ↦ rw e rejected
]

component_count-Ensures :
    (version : ℕ) (raw : ℤ)
    → FitsI16 raw
    → Ensures
        (λ c. (n : ℕ) → c ≡ pos n → (if version == 1 then n + 1 else n) < 0x8000)
        (component_count version raw)
unfolding component_count
component_count-Ensures version raw fits = elim (Bool-cases (version == 1)) [
  | inl one ↦ rw one (checked_pred16-Ensures raw fits)
  | inr other ↦ rw other (holds (λ n q. rw q at fits))
]

Gives-name_type :
    (version : ℕ) (e : Endian)
    → Gives {E = Error}
        (if version == 1 then pure (pos 0) else read_i32 e)
        (λ t. FitsI32 t × (version ≡ 1 → t ≡ pos 0))
Gives-name_type version e =
    Gives-if (version == 1) (λ one. Gives-pure (omega arith, λ _. refl))
      (λ other. Gives-map (λ t fits. (fits, λ one. absurd (ground arith))) (Gives-i32 e))

Gives-IsPrincipal :
    (version : ℕ) (e : Endian) → Gives (parse_principal version e) (IsPrincipal version)
unfolding parse_principal
Gives-IsPrincipal version e = Gives-bind _ (Gives-i16 e) λ raw fits.
    Gives-bind _ (Gives-lift (component_count-Ensures version raw fits)) λ count bound.
      Gives-bind _ (Gives-lift (non_negative-Ensures count)) λ n count_eq.
        Gives-bind _ (Gives-counted_string e) λ realm realm_text.
          Gives-bind _ (Gives-many IsText n (Gives-counted_string e)) λ components (texts, size).
            Gives-bind {P = λ t. FitsI32 t × (version ≡ 1 → t ≡ pos 0)} _
              (Gives-name_type version e)
              λ t (t_fits, absent). Gives-pure (record {
                realm_text = realm_text;
                components_text = texts;
                count_fits = rw size (bound n count_eq);
                name_type_fits = t_fits;
                name_type_absent = absent;
              })

Gives-kvno :
    (e : Endian) (kvno8 : ℕ)
    → IsByte kvno8
    → Gives (read_kvno e kvno8) (λ v. (v < 2 ^ 32) × (v ≡ 0 → kvno8 ≡ 0))
unfolding read_kvno
Gives-kvno e kvno8 h = record {
  gives = λ bytes offset hb.
      Ensures-bind {P = λ (v, _). v < 2 ^ 32} _
        (Ensures-if (ltb (length bytes - offset) 4) (λ _. holds (omega arith))
          (λ _. (Gives-u32 {E = Error} e).gives bytes offset hb))
        (λ (v, o) fits. holds (ground arith, ground arith));
}

Gives-IsEntry : (version : ℕ) (e : Endian) → Gives (parse_entry version e) (IsEntry version)
unfolding parse_entry
Gives-IsEntry version e = Gives-bind _ (Gives-IsPrincipal version e) λ p p_valid.
    Gives-bind _ (Gives-u32 e) λ timestamp timestamp_fits. Gives-bind _ Gives-u8 λ kvno8 kvno8_fits.
      Gives-bind _ (Gives-i16 e) λ etype etype_fits. Gives-bind _ (Gives-i16 e) λ key_len len_fits.
        Gives-bind _ (Gives-lift (non_negative-Ensures key_len)) λ n len_eq.
          Gives-bind _ (Gives-bytes n) λ value (_, size).
            Gives-bind _ (Gives-kvno e kvno8 kvno8_fits) λ kvno (kvno_fits, kvno_zero).
              Gives-pure (record {
                principal_valid = p_valid;
                timestamp_fits = timestamp_fits;
                kvno8_fits = kvno8_fits;
                etype_fits = etype_fits;
                key_fits = rw size (rw len_eq at len_fits);
                kvno_fits = kvno_fits;
                kvno_zero = kvno_zero;
              })

-- A round ends well if `next` does, wherever the block ends.
parse_block-Ensures :
    (next : ℕ → Result Error (List Entry)) (version : ℕ) (e : Endian) (bytes : Bytes) (offset : ℕ)
    (v : ℤ)
    → All IsByte bytes
    → ((o : ℕ) → offset ≤ o → o ≤ length bytes → Ensures (All (IsEntry version)) (next o))
    → Ensures (All (IsEntry version)) (parse_block next version e bytes offset v)
unfolding parse_block
parse_block-Ensures next version e bytes offset (pos zero) hb k = holds tt
parse_block-Ensures next version e bytes offset (pos (suc n)) hb k =
    Ensures-bind _ (checked_end-Ensures bytes offset (suc n)) λ end (q, inside).
      Ensures-bind _
        ((Gives-IsEntry version e).gives (take (suc n) (drop offset bytes)) 0
          (All-take _ (suc n) (drop offset bytes) (All-drop _ offset bytes hb)))
        λ (entry, _) valid.
          Ensures-bind _ (k end (omega arith) (omega arith))
            λ entries all_valid. holds (valid, all_valid)
parse_block-Ensures next version e bytes offset (negsuc n) hb k =
    Ensures-if (ltb n 0x7fffffff)
      (λ _.
        Ensures-bind _ (checked_end-Ensures bytes offset (suc n))
          λ end (q, inside). k end (omega arith) (omega arith))
      (λ _. rejected)

parse_entries-Ensures :
    (fuel version : ℕ) (e : Endian) (bytes : Bytes) (offset : ℕ)
    → All IsByte bytes
    → length bytes - offset < fuel
    → Ensures (All (IsEntry version)) (parse_entries fuel version e bytes offset)
unfolding parse_entries
parse_entries-Ensures zero version e bytes offset hb h = absurd (omega arith)
parse_entries-Ensures (suc fuel) version e bytes offset hb h =
    Ensures-if (ltb (length bytes - offset) 4) (λ _. holds tt)
      λ long. Ensures-bind _ (read_i32-advance e bytes offset) λ (v, start) (q, inside).
        parse_block-Ensures _ version e bytes start v hb
          λ o below fits. parse_entries-Ensures fuel version e bytes o hb (omega arith)

abbrev IsRead : Keytab → Type 0
IsRead k = ((k.version ≡ 1) ⊎ (k.version ≡ 2)) × All (IsEntry k.version) k.entries

parse-Ensures :
    (host_little : Bool) (bytes : Bytes)
    → All IsByte bytes
    → Ensures IsRead (parse host_little bytes)
unfolding parse
parse-Ensures host_little bytes hb =
    Ensures-if (ltb (length bytes) 2) (λ _. rejected)
      λ long.
        Ensures-if (not (get_or bytes 0 0 == keytab_first_byte)) (λ _. rejected)
          λ _.
            Ensures-if (not (version == 1) && not (version == 2)) (λ _. rejected)
              λ known.
                Ensures-bind _
                  (parse_entries-Ensures (length bytes) version
                    (endian_for_version host_little version) bytes 2 hb (ground arith))
                  λ entries all_valid. holds (ground arith, all_valid)
  where
    version : ℕ
    version = get_or bytes 1 0

-- Whatever the bytes, the loop of `parse` ends before its fuel does: the model never gives up where
-- the program goes on.
pub parse-ne-stuck :
    (host_little : Bool) (bytes : Bytes) → All IsByte bytes → parse host_little bytes ≢ stuck
parse-ne-stuck host_little bytes hb = Ensures-ne-stuck (parse-Ensures host_little bytes hb)

-- A keytab that was parsed has version 1 or 2, and each of its entries is in range: texts are UTF-8
-- and at most 32767 bytes, counts and key lengths fit an `i16`, numbers fit their words, a version 1
-- name type is 0, and the version number is zero only if the 8-bit one is.
pub parse-IsEntry :
    (host_little : Bool) (bytes : Bytes) {k : Keytab}
    → All IsByte bytes
    → parse host_little bytes ≡ ok k
    → ((k.version ≡ 1) ⊎ (k.version ≡ 2)) × All (IsEntry k.version) k.entries
parse-IsEntry host_little bytes hb q = Ensures-ok (parse-Ensures host_little bytes hb) q

-- ===== src/Keytab/Writer.antt =====
-- The writer of src/keytab.rs: `to_bytes` and what it calls. A `&mut Vec<u8>` is an argument and the
-- new list a result.
use rskrb.Prelude.{ℕ, ◌+◌, Bool, List, [], ◌∷◌, ◌++◌, ◌==◌, if◌then◌else◌, length}
use rskrb.Prelude.Int.{pos}
use rskrb.Result.{Result, ok, bind}
use rskrb.Wire.{Bytes, Endian, ok_or, try_i32, write_i32, write_u32, write_u16_checked}
use rskrb.Keytab.{
  Error, length_overflow, wire_error, Principal, Entry, Keytab, keytab_first_byte,
  endian_for_version,
}

unfoldable pub write_counted_string : Bytes → Bytes → Endian → Result Error Bytes
write_counted_string out value endian =
    bind (write_u16_checked out (pos (length value)) endian) λ out'. ok (out' ++ value)

unfoldable pub write_components : Bytes → List Bytes → Endian → Result Error Bytes
write_components out [] endian = ok out
write_components out (c ∷ cs) endian =
    bind (write_counted_string out c endian) λ out'. write_components out' cs endian

-- The count fits a `usize`, so `checked_add(1)` never fails.
unfoldable pub write_principal : Bytes → Principal → ℕ → Endian → Result Error Bytes
write_principal out p version endian =
    let count = if version == 1 then length p.components + 1 else length p.components in
    bind (write_u16_checked out (pos count) endian) λ out₁.
      bind (write_counted_string out₁ p.realm endian) λ out₂.
        bind (write_components out₂ p.components endian)
          λ out₃. ok (if version == 1 then out₃ else write_i32 out₃ p.name_type endian)

unfoldable pub write_body : Entry → ℕ → Endian → Result Error Bytes
write_body entry version endian = bind (write_principal [] entry.principal version endian) λ out₁.
    bind
      (write_u16_checked (write_u32 out₁ entry.timestamp endian ++ (entry.kvno8 ∷ []))
        entry.key.etype endian)
      λ out₂.
        bind (write_u16_checked out₂ (pos (length entry.key.value)) endian)
          λ out₃. ok (write_u32 (out₃ ++ entry.key.value) entry.kvno endian)

unfoldable pub write_entries : Bytes → List Entry → ℕ → Endian → Result Error Bytes
write_entries out [] version endian = ok out
write_entries out (entry ∷ entries) version endian = bind (write_body entry version endian) λ body.
    bind (ok_or (try_i32 (length body)) length_overflow)
      λ body_len. write_entries (write_i32 out body_len endian ++ body) entries version endian

unfoldable pub to_bytes : Bool → Keytab → Result Error Bytes
to_bytes host_little k =
    write_entries (keytab_first_byte ∷ k.version ∷ []) k.entries k.version
      (endian_for_version host_little k.version)

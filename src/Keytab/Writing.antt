-- ===== src/Keytab/Writing.antt =====
-- The writer of src/keytab.rs appends what the format lays out.
use mathlib.Core.Path.{subst}
use rskrb.Prelude.{
  ℕ, ◌<◌, ◌≡◌, refl, sym, ap, ◌∙◌, inl, inr, Bool, List, [], ◌∷◌, ◌++◌, append_assoc, append-nil,
  arith, lt→ltb, ◌==◌, Bool-cases, if◌then◌else◌, length, All, map, Any,
}
use rskrb.Prelude.Int.{ℤ, pos}
use rskrb.Wire.Numbers.{signed16-pattern16}
use rskrb.Result.{ok}
use rskrb.Wire.{
  Bytes, Endian, to_bytes16, write_u16_checked, write_u16, write_u32, write_i32, pattern16,
  signed16,
}
use rskrb.Wire.Reads.{concat_map}
use rskrb.Keytab.{Error, wire_error, Principal, Entry, Keytab, err, negsuc, length_overflow}
use rskrb.Keytab.Writer.{
  write_counted_string, write_components, write_principal, write_body, write_entries, to_bytes,
}
use rskrb.Keytab.Format.{
  counted_bytes, count_of, name_type_bytes, principal_bytes, body_bytes, entry_bytes, keytab_bytes,
  IsText, IsPrincipal, IsEntry, IsKeytab, IsU16, wrap_etypes, wrap_etype,
}
use rskrb.Keytab.Size.{length-body_bytes-lt}

pub write_u16_checked-append :
    (out : Bytes) (n : ℕ) (e : Endian)
    → n < 0x10000
    → write_u16_checked {E = Error} out (pos n) e ≡ ok (out ++ to_bytes16 e n)
unfolding write_u16_checked
write_u16_checked-append out n e h = rw (lt→ltb n 0x10000 h) (unfold write_u16 in refl)

write_counted_string-append :
    (out s : Bytes) (e : Endian)
    → length s < 0x10000
    → write_counted_string out s e ≡ ok (out ++ counted_bytes e s)
unfolding write_counted_string
write_counted_string-append out s e h =
    rw (write_u16_checked-append out (length s) e h) (ap ok (append_assoc out _ s))

write_components-append :
    (out : Bytes) (cs : List Bytes) (e : Endian)
    → All IsText cs
    → write_components out cs e ≡ ok (out ++ concat_map (counted_bytes e) cs)
unfolding write_components
write_components-append out [] e h = ap ok (sym (append-nil out))
write_components-append out (c ∷ cs) e ((text, fits), hs) =
    rw (write_counted_string-append out c e (omega arith)) (
      write_components-append (out ++ counted_bytes e c) cs e hs
      ∙ ap ok (append_assoc out (counted_bytes e c) (concat_map (counted_bytes e) cs)))

name_type-append :
    (out : Bytes) (version : ℕ) (t : ℤ) (e : Endian)
    → (if version == 1 then out else write_i32 out t e) ≡ out ++ name_type_bytes version e t
unfolding write_i32
name_type-append out version t e = elim (Bool-cases (version == 1)) [
  | inl one ↦ rw (one, append-nil)
  | inr other ↦ rw other
]

write_principal-append :
    (out : Bytes) (p : Principal) (version : ℕ) (e : Endian)
    → IsPrincipal version p
    → write_principal out p version e ≡ ok (out ++ principal_bytes version e p)
unfolding write_principal principal_bytes
write_principal-append out p version e v =
    rw
      (
        write_u16_checked-append out (count_of version p) e (omega (arith, v.count_fits)),
        write_counted_string-append _ p.realm e (omega (arith, v.realm_text)),
        write_components-append _ p.components e v.components_text,
        name_type-append,
      )
      (simp append_assoc)

pattern16-signed16 : (n : ℕ) → n < 0x10000 → pattern16 (signed16 n) ≡ n
pattern16-signed16 n h = ground arith

write_body-body_bytes :
    (entry : Entry) (version : ℕ) (e : Endian)
    → IsU16 entry
    → IsEntry version (wrap_etype entry)
    → write_body entry version e ≡ ok (body_bytes version e (wrap_etype entry))
unfolding write_body body_bytes write_u32
write_body-body_bytes entry version e (n, q, fits) v =
    rw
      (
        write_principal-append [] entry.principal version e v.principal_valid,
        q,
        write_u16_checked-append _ n e fits,
        write_u16_checked-append _ (length entry.key.value) e (omega (arith, v.key_fits)),
        pattern16-signed16 n fits,
      )
      (simp append_assoc)

-- One entry, written, is followed by the rest.
write_entries-one :
    (out : Bytes) (entry : Entry) (es : List Entry) (version : ℕ) (e : Endian)
    → IsU16 entry
    → IsEntry version (wrap_etype entry)
    → write_entries out (entry ∷ es) version e
      ≡ write_entries (out ++ entry_bytes version e (wrap_etype entry)) es version e
unfolding write_entries entry_bytes write_i32
write_entries-one out entry es version e u h =
    let body : Bytes = body_bytes version e (wrap_etype entry) in
    rw (
      write_body-body_bytes entry version e u h,
      lt→ltb (length body) 0x80000000 (length-body_bytes-lt version e (wrap_etype entry) h),
      append_assoc,
    )

pub write_entries-append :
    (out : Bytes) (es : List Entry) (version : ℕ) (e : Endian)
    → All IsU16 es
    → All (IsEntry version) (map wrap_etype es)
    → write_entries out es version e
      ≡ ok (out ++ concat_map (entry_bytes version e) (map wrap_etype es))
write_entries-append out [] version e u h = unfold write_entries in ap ok (sym (append-nil out))
write_entries-append out (entry ∷ es) version e (u, us) (h, hs) =
    write_entries-one out entry es version e u h
    ∙ write_entries-append (out ++ entry_bytes version e (wrap_etype entry)) es version e us hs
    ∙ ap ok (append_assoc out _ _)

-- `to_bytes` lays out the keytab with each encryption type taken for an `i16`.
pub to_bytes-wrap_etypes :
    (host_little : Bool) (k : Keytab)
    → All IsU16 k.entries
    → IsKeytab host_little (wrap_etypes k)
    → to_bytes host_little k ≡ ok (keytab_bytes host_little (wrap_etypes k))
unfolding to_bytes keytab_bytes
to_bytes-wrap_etypes host_little k u v =
    write_entries-append _ k.entries k.version _ u v.entries_valid

pub wrap_etype_id : {version : ℕ} (entry : Entry) → IsEntry version entry → wrap_etype entry ≡ entry
wrap_etype_id entry v =
    let same = signed16-pattern16 entry.key.etype v.etype_fits in
    λ i. record entry { key = record { etype = same i; value = entry.key.value } }

abbrev pub IsNegative : Entry → Type 0
IsNegative entry = (n : ℕ) × (entry.key.etype ≡ negsuc n)

write_body-negative :
    (entry : Entry) (version : ℕ) (e : Endian)
    → IsEntry version entry
    → IsNegative entry
    → write_body entry version e ≡ err length_overflow
unfolding write_body write_u16_checked
write_body-negative entry version e v (n, q) =
    rw (write_principal-append [] entry.principal version e v.principal_valid, q)

-- Entries that were parsed are written up to the first one with a negative encryption type.
write_entries-negative :
    (out : Bytes) (es : List Entry) (version : ℕ) (e : Endian)
    → All (IsEntry version) es
    → Any IsNegative es
    → write_entries out es version e ≡ err length_overflow
write_entries-negative out (entry ∷ es) version e (h, hs) some_negative =
    by_etype entry.key.etype refl (λ later.
      write_entries-negative (out ++ entry_bytes version e (wrap_etype entry)) es version e hs
        later)
  where
    by_etype :
        (t : ℤ)
        → entry.key.etype ≡ t
        → (Any IsNegative es
            → write_entries (out ++ entry_bytes version e (wrap_etype entry)) es version e
              ≡ err length_overflow)
        → write_entries out (entry ∷ es) version e ≡ err length_overflow
    by_etype (negsuc n) q rest =
        unfold write_entries in rw (write_body-negative entry version e h (n, q))
    by_etype (pos n) q rest =
        let small : n < 0x8000 = rw q at h.etype_fits in
        write_entries-one out entry es version e (n, q, omega arith)
          (subst (IsEntry version) (sym (wrap_etype_id entry h)) h)
        ∙ rest (elim some_negative [ inl (m, neg) ↦ cc (q, neg) | inr later ↦ later ])
write_entries-negative out [] version e h some_negative = absurd some_negative

-- `to_bytes` refuses, with `LengthOverflow`, every keytab with a negative encryption type among
-- entries that the format can hold, such as those that `parse` returns.
pub to_bytes_negative :
    (host_little : Bool) (k : Keytab)
    → All (IsEntry k.version) k.entries
    → Any IsNegative k.entries
    → to_bytes host_little k ≡ err length_overflow
unfolding to_bytes
to_bytes_negative host_little k h n = write_entries-negative _ k.entries k.version _ h n

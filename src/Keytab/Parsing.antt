-- ===== src/Keytab/Parsing.antt =====
-- The readers of src/keytab.rs read back what the format lays out.
use rskrb.Prelude.{
  ℕ, ◌^◌, ◌<◌, ◌≡◌, refl, inl, inr, List, [], ◌∷◌, ◌++◌, arith, ◌==◌, ==_iff, Bool-cases,
  if◌then◌else◌, length, length-append, All,
}
use rskrb.Prelude.Int.{ℤ, pos}
use rskrb.Result.{ok}
use rskrb.Wire.{Bytes, Endian, pure, read_many, read_i32, to_bytes32}
use rskrb.Wire.Numbers.{FitsI32, length-to_bytes32}
use rskrb.Wire.Reads.{
  Reads, Reads-bind, Reads-map, Reads-pure, Reads-lift, Reads-many, Reads-bytes, Reads-text,
  Reads-u8, Reads-i16, Reads-u32, Reads-i32, concat_map,
}
use rskrb.Keytab.{
  Error, wire_error, Principal, Entry, read_counted_string, component_count, parse_principal,
  read_kvno, parse_entry,
}
use rskrb.Keytab.Format.{
  counted_bytes, count_of, name_type_bytes, principal_bytes, body_bytes, IsText, IsPrincipal,
  IsEntry,
}

Reads-counted_string :
    (e : Endian) (s : Bytes) → IsText s → Reads (read_counted_string e) (counted_bytes e s) s
unfolding read_counted_string
Reads-counted_string e s (text, fits) =
    Reads-bind _ (Reads-i16 e (pos (length s)) fits)
      (Reads-bind _ (Reads-lift refl) (Reads-text s text))

Reads-counted_strings :
    (e : Endian) (cs : List Bytes)
    → All IsText cs
    → Reads (read_many (length cs) (read_counted_string e)) (concat_map (counted_bytes e) cs) cs
Reads-counted_strings e cs h = Reads-many _ _ cs (each cs h)
  where
    each :
        (cs : List Bytes)
        → All IsText cs
        → All (λ c. Reads (read_counted_string e) (counted_bytes e c) c) cs
    each [] h = tt
    each (c ∷ cs) (h, hs) = (Reads-counted_string e c h, each cs hs)

component_count-count_of :
    (version : ℕ) (p : Principal)
    → component_count version (pos (count_of version p)) ≡ ok (pos (length p.components))
unfolding component_count
component_count-count_of version p = ground arith

Reads-name_type :
    (version : ℕ) (e : Endian) (t : ℤ)
    → FitsI32 t
    → (version ≡ 1 → t ≡ pos 0)
    → Reads {E = Error}
        (if version == 1 then pure (pos 0) else read_i32 e)
        (name_type_bytes version e t)
        t
Reads-name_type version e t fits absent = elim (Bool-cases (version == 1)) [
  | inl one ↦ rw (one, absent ((==_iff version 1).0 one)) (Reads-pure (pos 0))
  | inr other ↦ rw other (Reads-i32 e t fits)
]

pub Reads-principal :
    (version : ℕ) (e : Endian) (p : Principal)
    → IsPrincipal version p
    → Reads (parse_principal version e) (principal_bytes version e p) p
unfolding parse_principal principal_bytes
Reads-principal version e p v = Reads-bind _ (Reads-i16 e (pos (count_of version p)) v.count_fits) (
    Reads-bind _ (Reads-lift (component_count-count_of version p)) (
      Reads-bind _ (Reads-lift refl) (
        Reads-bind _ (Reads-counted_string e p.realm v.realm_text) (
          Reads-bind _ (Reads-counted_strings e p.components v.components_text) (
            Reads-map (λ t. record { realm = p.realm; components = p.components; name_type = t })
              (Reads-name_type version e p.name_type v.name_type_fits v.name_type_absent))))))

Reads-kvno :
    (e : Endian) (kvno8 kvno : ℕ)
    → kvno < 2 ^ 32
    → (kvno ≡ 0 → kvno8 ≡ 0)
    → Reads (read_kvno e kvno8) (to_bytes32 e kvno) kvno
unfolding read_kvno
Reads-kvno e kvno8 kvno fits zero_case = record {
  reads = λ pre rest h. ground (
    arith,
    (Reads-u32 {E = Error} e kvno fits).reads pre rest h,
    length-append pre (to_bytes32 e kvno ++ rest),
    length-append (to_bytes32 e kvno) rest,
    length-to_bytes32 e kvno,
    zero_case,
  );
}

pub Reads-entry :
    (version : ℕ) (e : Endian) (entry : Entry)
    → IsEntry version entry
    → Reads (parse_entry version e) (body_bytes version e entry) entry
unfolding parse_entry body_bytes
Reads-entry version e entry v =
    Reads-bind _ (Reads-principal version e entry.principal v.principal_valid) (
      Reads-bind _ (Reads-u32 e entry.timestamp v.timestamp_fits) (
        Reads-bind _ (Reads-u8 entry.kvno8) (
          Reads-bind _ (Reads-i16 e entry.key.etype v.etype_fits) (
            Reads-bind _ (Reads-i16 e (pos (length entry.key.value)) v.key_fits) (
              Reads-bind _ (Reads-lift refl) (
                Reads-bind _ (Reads-bytes entry.key.value) (
                  Reads-map
                    (λ kvno. record {
                      principal = entry.principal;
                      timestamp = entry.timestamp;
                      kvno8 = entry.kvno8;
                      key = record { etype = entry.key.etype; value = entry.key.value };
                      kvno = kvno;
                    })
                    (Reads-kvno e entry.kvno8 entry.kvno v.kvno_fits v.kvno_zero))))))))

-- ===== src/Keytab/Format.antt =====
-- The keytab file format, written out as a function of the data, and the values that it can hold.
use rskrb.Prelude.{
  map, ℕ, ◌+◌, ◌^◌, ◌<◌, ◌≡◌, true, Bool, ◌⊎◌, [], ◌∷◌, ◌++◌, ◌==◌, if◌then◌else◌, length, All,
}
use rskrb.Prelude.Int.{ℤ, pos}
use rskrb.Utf8.{is_utf8}
use rskrb.Wire.{signed16, Bytes, Endian, pattern16, pattern32, to_bytes16, to_bytes32}
use rskrb.Wire.Numbers.{FitsI32, FitsI16}
use rskrb.Wire.Reads.{concat_map}
use rskrb.Keytab.{Principal, Entry, Keytab, keytab_first_byte, endian_for_version}

abbrev pub counted_bytes : Endian → Bytes → Bytes
counted_bytes e s = to_bytes16 e (length s) ++ s

abbrev pub count_of : ℕ → Principal → ℕ
count_of version p = if version == 1 then length p.components + 1 else length p.components

abbrev pub name_type_bytes : ℕ → Endian → ℤ → Bytes
name_type_bytes version e t = if version == 1 then [] else to_bytes32 e (pattern32 t)

unfoldable pub principal_bytes : ℕ → Endian → Principal → Bytes
principal_bytes version e p =
    to_bytes16 e (count_of version p)
    ++ (counted_bytes e p.realm
        ++ (concat_map (counted_bytes e) p.components ++ name_type_bytes version e p.name_type))

unfoldable pub body_bytes : ℕ → Endian → Entry → Bytes
body_bytes version e entry =
    principal_bytes version e entry.principal
    ++ (to_bytes32 e entry.timestamp
        ++ ((entry.kvno8 ∷ [])
            ++ (to_bytes16 e (pattern16 entry.key.etype)
                ++ (to_bytes16 e (length entry.key.value)
                    ++ (entry.key.value ++ to_bytes32 e entry.kvno)))))

unfoldable pub entry_bytes : ℕ → Endian → Entry → Bytes
entry_bytes version e entry =
    to_bytes32 e (length (body_bytes version e entry)) ++ body_bytes version e entry

unfoldable pub keytab_bytes : Bool → Keytab → Bytes
keytab_bytes host_little k =
    keytab_first_byte
    ∷ k.version
    ∷ concat_map (entry_bytes k.version (endian_for_version host_little k.version)) k.entries

-- A text whose length fits the `i16` that stands before it.
abbrev pub IsText : Bytes → Type 0
IsText s = (is_utf8 s ≡ true) × (length s < 0x8000)

pub record IsPrincipal (version : ℕ) (p : Principal) : Type 0 where
  pub realm_text : IsText p.realm
  pub components_text : All IsText p.components
  pub count_fits : count_of version p < 0x8000
  pub name_type_fits : FitsI32 p.name_type
  pub name_type_absent : version ≡ 1 → p.name_type ≡ pos 0

pub record IsEntry (version : ℕ) (entry : Entry) : Type 0 where
  pub principal_valid : IsPrincipal version entry.principal
  pub timestamp_fits : entry.timestamp < 2 ^ 32
  pub kvno8_fits : entry.kvno8 < 256
  pub etype_fits : FitsI16 entry.key.etype
  pub key_fits : length entry.key.value < 0x8000
  pub kvno_fits : entry.kvno < 2 ^ 32
  pub kvno_zero : entry.kvno ≡ 0 → entry.kvno8 ≡ 0

pub record IsKeytab (host_little : Bool) (k : Keytab) : Type 0 where
  pub version_known : (k.version ≡ 1) ⊎ (k.version ≡ 2)
  pub entries_valid : All (IsEntry k.version) k.entries
  pub file_fits : length (keytab_bytes host_little k) < 2 ^ 64

-- The writer takes an encryption type for a `u16`, the reader for an `i16`.
abbrev pub IsU16 : Entry → Type 0
IsU16 entry = (n : ℕ) × (entry.key.etype ≡ pos n) × (n < 0x10000)

-- The entry that is read where `entry` was written.
abbrev pub wrap_etype : Entry → Entry
wrap_etype entry = record entry {
  key = record { etype = signed16 (pattern16 entry.key.etype); value = entry.key.value };
}

abbrev pub wrap_etypes : Keytab → Keytab
wrap_etypes k = record k { entries = map wrap_etype k.entries }

-- The encryption type is one that the writer does not refuse.
abbrev pub IsUnsigned : Entry → Type 0
IsUnsigned entry = (n : ℕ) × (entry.key.etype ≡ pos n)

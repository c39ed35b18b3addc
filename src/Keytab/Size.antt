-- ===== src/Keytab/Size.antt =====
-- The body of an entry always fits the signed 32-bit length in front of it.
use rskrb.Prelude.{
  ℕ, ◌+◌, ◌*◌, ◌^◌, ◌≤◌, ◌<◌, Bool-cases, inl, inr, List, [], ◌∷◌, ◌++◌, arith, ◌==◌, length,
  length-append, All,
}
use rskrb.Wire.{Bytes, Endian, to_bytes16, to_bytes32, pattern16, pattern32}
use rskrb.Wire.Numbers.{length-to_bytes16, length-to_bytes32}
use rskrb.Wire.Reads.{concat_map}
use rskrb.Keytab.{Principal, Entry}
use rskrb.Keytab.Format.{
  counted_bytes, count_of, name_type_bytes, principal_bytes, body_bytes, IsText, IsPrincipal,
  IsEntry,
}

length-counted_bytes : (e : Endian) (s : Bytes) → IsText s → length (counted_bytes e s) ≤ 32769
length-counted_bytes e s h =
    omega (arith, length-append (to_bytes16 e (length s)) s, length-to_bytes16 e (length s))

length-texts :
    (e : Endian) (cs : List Bytes)
    → All IsText cs
    → length (concat_map (counted_bytes e) cs) ≤ length cs * 32769
length-texts e [] h = omega arith
length-texts e (c ∷ cs) (h, hs) = omega (
  arith,
  length-append (counted_bytes e c) (concat_map (counted_bytes e) cs),
  length-counted_bytes e c h,
  length-texts e cs hs,
)

length-name_type_bytes :
    (version : ℕ) (e : Endian) (t : _) → length (name_type_bytes version e t) ≤ 4
length-name_type_bytes version e t = elim (Bool-cases (version == 1)) [
  | inl one ↦ rw one (omega arith)
  | inr other ↦ rw other (omega (arith, length-to_bytes32 e (pattern32 t)))
]

length-components-lt :
    {version : ℕ} {p : Principal} → IsPrincipal version p → length p.components < 0x8000
length-components-lt v = ground (arith, v.count_fits)

length-principal_bytes :
    (version : ℕ) (e : Endian) (p : Principal)
    → IsPrincipal version p
    → length (principal_bytes version e p) ≤ 32767 * 32769 + 32775
unfolding principal_bytes
length-principal_bytes version e p v =
    let realm = counted_bytes e p.realm in
    let texts = concat_map (counted_bytes e) p.components in
    let nt = name_type_bytes version e p.name_type in
    omega (
      arith,
      length-append (to_bytes16 e (count_of version p)) (realm ++ (texts ++ nt)),
      length-append realm (texts ++ nt),
      length-append texts nt,
      length-to_bytes16 e (count_of version p),
      length-counted_bytes e p.realm v.realm_text,
      length-texts e p.components v.components_text,
      length-name_type_bytes version e p.name_type,
      length-components-lt v,
    )

pub length-body_bytes-lt :
    (version : ℕ) (e : Endian) (entry : Entry)
    → IsEntry version entry
    → length (body_bytes version e entry) < 2 ^ 31
unfolding body_bytes
length-body_bytes-lt version e entry v =
    let head = principal_bytes version e entry.principal in
    let time = to_bytes32 e entry.timestamp in
    let etype = to_bytes16 e (pattern16 entry.key.etype) in
    let size = to_bytes16 e (length entry.key.value) in
    let kvno = to_bytes32 e entry.kvno in
    omega (
      arith,
      length-principal_bytes version e entry.principal v.principal_valid,
      length-append head
          (time ++ ((entry.kvno8 ∷ []) ++ (etype ++ (size ++ (entry.key.value ++ kvno))))),
      length-append time ((entry.kvno8 ∷ []) ++ (etype ++ (size ++ (entry.key.value ++ kvno)))),
      length-append etype (size ++ (entry.key.value ++ kvno)),
      length-append size (entry.key.value ++ kvno),
      length-append entry.key.value kvno,
      length-to_bytes32 e entry.timestamp,
      length-to_bytes16 e (pattern16 entry.key.etype),
      length-to_bytes16 e (length entry.key.value),
      length-to_bytes32 e entry.kvno,
      v.key_fits,
    )

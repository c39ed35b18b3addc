-- ===== src/Spnego/Reader.antt =====
-- The reader of src/spnego/der.rs and what decodes values. `usize` has 64 bits, and no slice is so long
-- that an offset in it overflows.
use rskrb.Prelude.{
  ℕ, ◌+◌, ◌*◌, ◌/◌, ◌%◌, ◌^◌, Bool, true, false, ◌||◌, not, List, [], ◌∷◌, ltb, leb, ◌==◌,
  if◌then◌else◌, length, take, drop,
}
use rskrb.Result.{Result, ok, err, bind}
use rskrb.Wire.{Bytes}
use rskrb.Der.{big_endian}
use rskrb.Spnego.{
  ObjectIdentifier, Error, truncated_der, high_tag_number, indefinite_length, length_exceeds_input,
  unexpected_tag, trailing_data, invalid_oid_encoding, invalid_integer, Tlv, tag_object_identifier,
}
use rskrb.Spnego.Oid.{from_arcs}

-- `arc.checked_shl(7)` is never `None`: it is so for shifts of 32 and more only.
abbrev pub push_bits : ℕ → ℕ → ℕ
push_bits arc byte = arc * 128 % 2 ^ 32 + byte % 128

-- `value.checked_shl(8)` is never `None` either.
abbrev pub fold_u32 : ℕ → Bytes → ℕ
fold_u32 value [] = value
fold_u32 value (byte ∷ bytes) = fold_u32 (value * 256 % 2 ^ 32 + byte) bytes

module _ {F : Type 0} where
  unfoldable pub read_len : Bytes → Result (Error F) (ℕ × Bytes)
  unfolding big_endian
  read_len [] = err truncated_der
  read_len (first ∷ rest) =
      if ltb first 0x80
      then ok (first, rest)
      else let count = first % 0x80 in
        if count == 0
        then err indefinite_length
        else if ltb 8 count || ltb (length rest) count
        then err length_exceeds_input
        else ok (big_endian 0 (take count rest), drop count rest)

  unfoldable pub read_tlv : Bytes → Result (Error F) (Tlv × Bytes)
  read_tlv [] = err truncated_der
  read_tlv (tag ∷ rest) =
      if tag % 0x20 == 0x1f
      then err high_tag_number
      else bind (read_len rest) λ (len, body).
        if ltb (length body) len
        then err length_exceeds_input
        else ok (record { tag = tag; value = take len body }, drop len body)

  unfoldable pub read_bytes : ℕ → Bytes → Result (Error F) (Bytes × Bytes)
  read_bytes len bytes =
      if ltb (length bytes) len then err truncated_der else ok (take len bytes, drop len bytes)

  abbrev pub finish : Bytes → Result (Error F) (Unit {0})
  finish [] = ok tt
  finish (_ ∷ _) = err trailing_data

  unfoldable pub read_single_tlv : Bytes → ℕ → Result (Error F) Tlv
  read_single_tlv bytes expected_tag = bind (read_tlv bytes) λ (tlv, rest). bind (finish rest) λ _.
      if not (tlv.tag == expected_tag) then err (unexpected_tag expected_tag tlv.tag) else ok tlv

  -- The two loops of `decode_oid_value` in one: `inside` says whether a byte of the arc was read.
  unfoldable pub decode_arcs : Bool → ℕ → Bytes → Result (Error F) (List ℕ)
  decode_arcs true arc [] = err invalid_oid_encoding
  decode_arcs false arc [] = ok []
  decode_arcs inside arc (byte ∷ bytes) = elim (ltb byte 0x80) [
    | true ↦ bind (decode_arcs false 0 bytes) λ arcs. ok (push_bits arc byte ∷ arcs)
    | false ↦ decode_arcs true (push_bits arc byte) bytes
  ]

  unfoldable pub decode_oid_value : Bytes → Result (Error F) ObjectIdentifier
  decode_oid_value [] = err invalid_oid_encoding
  decode_oid_value (first ∷ bytes) =
      bind (decode_arcs false 0 bytes) λ arcs. from_arcs (first / 40 ∷ first % 40 ∷ arcs)

  unfoldable pub decode_oid_tlv : Tlv → Result (Error F) ObjectIdentifier
  decode_oid_tlv tlv =
      if not (tlv.tag == tag_object_identifier)
      then err (unexpected_tag tag_object_identifier tlv.tag)
      else decode_oid_value tlv.value

  unfoldable pub decode_u32 : Bytes → Result (Error F) ℕ
  decode_u32 [] = err invalid_integer
  decode_u32 (first ∷ rest) =
      if ltb 4 (length rest)
      then err invalid_integer
      else if leb 0x80 first
      then err invalid_integer
      else ok (fold_u32 0 (first ∷ rest))

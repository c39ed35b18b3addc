-- ===== src/Spnego/Writer.antt =====
-- The writers of src/spnego/der.rs.
use rskrb.Prelude.{
  ℕ, zero, suc, ◌+◌, ◌*◌, ◌/◌, ◌%◌, ◌^◌, List, [], ◌∷◌, ◌++◌, ltb, leb, ◌==◌, if◌then◌else◌, length,
}
use rskrb.Result.{Result, ok, err, bind}
use rskrb.Wire.{Bytes, big, to_bytes32}
use rskrb.Spnego.{ObjectIdentifier, Error, invalid_oid, tag_object_identifier}
use rskrb.Spnego.Oid.{validate_arcs}

-- `to_be_bytes` of a number of `count` bytes.
unfoldable pub be_bytes : ℕ → ℕ → Bytes
be_bytes zero n = []
be_bytes (suc count) n = be_bytes count (n / 256) ++ (n % 256 ∷ [])

-- From the first byte that is not zero.
unfoldable pub drop_zeros : Bytes → Bytes
drop_zeros [] = []
drop_zeros (byte ∷ bytes) = if byte == 0 then drop_zeros bytes else byte ∷ bytes

unfoldable pub encode_len : ℕ → Bytes
unfolding be_bytes drop_zeros
encode_len len =
    if ltb len 128
    then len ∷ []
    else let length_bytes = drop_zeros (be_bytes 8 len) in
      (0x80 + length length_bytes) ∷ length_bytes

unfoldable pub encode_tlv : ℕ → Bytes → Bytes
unfolding encode_len
encode_tlv tag value = tag ∷ (encode_len (length value) ++ value)

abbrev pub encode_explicit : ℕ → Bytes → Bytes
encode_explicit tag inner_der = encode_tlv tag inner_der

-- The loop that fills the array of five bytes from its end; a 32-bit number has five groups at most.
unfoldable pub base128_loop : ℕ → ℕ → Bytes → Bytes
base128_loop zero value stack = stack
base128_loop (suc room) value stack =
    let more = base128_loop room (value / 128) ((value % 128 + 0x80) ∷ stack) in
    if value == 0 then stack else more

unfoldable pub encode_base128 : ℕ → Bytes
unfolding base128_loop
encode_base128 value = base128_loop 4 (value / 128) (value % 128 ∷ [])

unfoldable pub encode_arcs : List ℕ → Bytes
encode_arcs [] = []
encode_arcs (arc ∷ arcs) = encode_base128 arc ++ encode_arcs arcs

module _ {F : Type 0} where
  -- The first two arcs in one number; `checked_mul` cannot fail behind `validate_arcs`.
  unfoldable pub first_arcs : ℕ → ℕ → Result (Error F) ℕ
  first_arcs first second =
      if ltb (first * 40 + second) (2 ^ 32) then ok (first * 40 + second) else err invalid_oid

  unfoldable pub oid_value : ObjectIdentifier → Result (Error F) Bytes
  oid_value (first ∷ second ∷ arcs) =
      bind (first_arcs first second) λ n. ok (encode_base128 n ++ encode_arcs arcs)
  oid_value _ = err invalid_oid

  unfoldable pub encode_oid : ObjectIdentifier → Result (Error F) Bytes
  unfolding oid_value
  encode_oid oid =
      bind (validate_arcs oid)
        λ _. bind (oid_value oid) λ value. ok (encode_tlv tag_object_identifier value)

-- All zeros but the last.
unfoldable pub strip_zeros : Bytes → Bytes
strip_zeros [] = []
strip_zeros (byte ∷ []) = byte ∷ []
strip_zeros (byte ∷ next ∷ bytes) =
    let shorter = strip_zeros (next ∷ bytes) in if byte == 0 then shorter else byte ∷ next ∷ bytes

abbrev pad_sign : Bytes → Bytes
pad_sign [] = []
pad_sign (first ∷ bytes) = if leb 0x80 first then 0 ∷ first ∷ bytes else first ∷ bytes

unfoldable pub encode_u32 : ℕ → Bytes
unfolding strip_zeros
encode_u32 value = pad_sign (strip_zeros (to_bytes32 big value))

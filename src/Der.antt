-- ===== src/Der.antt =====
-- src/der.rs: a DER value out of decrypted bytes that may be padded with zeros.
pub mod Format
pub mod Padding
use rskrb.Prelude.{
  ℕ, zero, suc, ◌+◌, ◌*◌, ◌%◌, ◌^◌, Bool, true, ◌&&◌, ◌||◌, [], ◌∷◌, Option, none, some, ltb, leb,
  ◌==◌, if◌then◌else◌, length, take, drop, get_elem?,
}
use rskrb.Wire.{Bytes}

-- The high tag number: the octets up to one below 0x80. The offset behind them.
unfoldable pub tag_end : ℕ → Bytes → ℕ → Option ℕ
tag_end zero bytes offset = none
tag_end (suc fuel) bytes offset = elim (get_elem? bytes offset) [
  | none ↦ none
  | some byte ↦ if ltb byte 0x80 then some (offset + 1) else tag_end fuel bytes (offset + 1)
]

abbrev bind_option {ℓ κ} : {A : Type ℓ} {B : Type κ} → Option A → (A → Option B) → Option B
bind_option none f = none
bind_option (some a) f = f a

-- `usize::checked_add`
abbrev checked_add_usize : ℕ → ℕ → Option ℕ
checked_add_usize a b = if ltb (a + b) (2 ^ 64) then some (a + b) else none

-- `bytes.get(start..end)`, for `start` at most `end`.
abbrev get_range : Bytes → ℕ → ℕ → Option Bytes
get_range bytes start count =
    if leb (start + count) (length bytes) then some (take count (drop start bytes)) else none

-- Eight bytes at most, so the shift loses nothing.
unfoldable pub big_endian : ℕ → Bytes → ℕ
big_endian len [] = len
big_endian len (byte ∷ bytes) = big_endian (len * 256 + byte) bytes

-- The length that starts with `first_len` and the offset behind its octets.
unfoldable pub read_length : Bytes → ℕ → ℕ → Option (ℕ × ℕ)
read_length bytes first_len offset =
    if ltb first_len 0x80
    then some (first_len, offset)
    else let count = first_len % 0x80 in
      if count == 0 || ltb 8 count
      then none
      else bind_option (checked_add_usize offset count) λ end_offset.
        bind_option (get_range bytes offset count)
          λ len_bytes. some (big_endian 0 len_bytes, end_offset)

unfoldable pub content_end : Bytes → ℕ → Option ℕ
content_end bytes offset = bind_option (get_elem? bytes offset) λ first_len.
    bind_option (read_length bytes first_len (offset + 1)) λ (len, offset').
      bind_option (checked_add_usize offset' len)
        λ end_offset. if leb end_offset (length bytes) then some end_offset else none

-- The loop over the tag reads a byte in every round.
unfoldable pub top_level_der_end : Bytes → Option ℕ
top_level_der_end [] = none
top_level_der_end (first ∷ rest) =
    bind_option
      (if first % 0x20 == 0x1f then tag_end (length rest + 1) (first ∷ rest) 1 else some 1)
      λ offset. content_end (first ∷ rest) offset

abbrev pub all_zero : Bytes → Bool
all_zero [] = true
all_zero (byte ∷ bytes) = byte == 0 && all_zero bytes

unfoldable pub trim_zero_padded_der : Bytes → Bytes
trim_zero_padded_der bytes = elim (top_level_der_end bytes) [
  | none ↦ bytes
  | some end_offset ↦ if all_zero (drop end_offset bytes) then take end_offset bytes else bytes
]

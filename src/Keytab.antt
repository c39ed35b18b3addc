-- ===== src/Keytab.antt =====
-- src/keytab.rs: the data of a MIT keytab file, its parser and its writer. `Endian::for_version` asks
-- for the byte order of the host (`cfg!(target_endian)`), which is the argument `host_little`.
pub mod Writer
pub mod Format
pub mod Size
pub mod Parsing
pub mod Writing
pub mod Blocks
pub mod Rounds
pub mod RoundTrip
pub mod Range
pub mod Lookup
pub mod Names
use rskrb.Prelude.{
  ℕ, zero, suc, ◌+◌, ◌-◌, ◌<◌, Bool, true, false, ◌&&◌, not, List, [], ◌∷◌, ◌++◌, Option, none,
  some, ltb, ◌==◌, if◌then◌else◌, length, take, drop, get_or,
}
use rskrb.Prelude.Int.{ℤ, pos, negsuc}
use rskrb.Result.{Result, ok, err, stuck, bind}
use rskrb.Wire.{
  Bytes, WireError, Endian, big, little, Reader, ◌>>=◌, pure, lift, ok_or, read_many, checked_end,
  read_bytes, read_u8, read_i16, read_u32, read_i32, non_negative, from_utf8, try_i32, write_i32,
  write_u32, write_u16_checked,
}

-- The variants of `Error` that parsing, writing, naming and looking up raise.
pub data Error : Type 0 where
  invalid_principal_name : Error
  too_short : ℕ → Error
  invalid_first_byte : ℕ → Error
  invalid_version : ℕ → Error
  truncated : ℕ → ℕ → ℕ → Error
  negative_length : ℤ → Error
  length_overflow : Error
  invalid_string : Error
  no_matching_key : Bytes → Bytes → ℕ → ℤ → Error

instance abbrev pub wire_error : WireError Error
wire_error = record {
  truncated = truncated;
  negative_length = negative_length;
  length_overflow = length_overflow;
  invalid_string = invalid_string;
}

pub record Principal : Type 0 where
  pub realm : Bytes
  pub components : List Bytes
  pub name_type : ℤ

pub record EncryptionKey : Type 0 where
  pub etype : ℤ
  pub value : Bytes

pub record Entry : Type 0 where
  pub principal : Principal
  pub timestamp : ℕ
  pub kvno8 : ℕ
  pub key : EncryptionKey
  pub kvno : ℕ

pub record Keytab : Type 0 where
  pub version : ℕ
  pub entries : List Entry

abbrev pub keytab_first_byte : ℕ
keytab_first_byte = 5

unfoldable pub endian_for_version : Bool → ℕ → Endian
endian_for_version host_little version = if version == 1 && host_little then little else big

unfoldable pub read_counted_string : Endian → Reader Error Bytes
read_counted_string endian = do
  len ← read_i16 endian
  n ← lift (non_negative len)
  raw ← read_bytes n
  lift (from_utf8 raw)

-- `i16::checked_sub(1)`
abbrev pub checked_pred16 : ℤ → Option ℤ
checked_pred16 (pos zero) = some (negsuc 0)
checked_pred16 (pos (suc n)) = some (pos n)
checked_pred16 (negsuc n) = if ltb (n + 1) 0x8000 then some (negsuc (n + 1)) else none

-- Version 1 counts the realm as a component.
unfoldable pub component_count : ℕ → ℤ → Result Error ℤ
component_count version count =
    if version == 1 then ok_or (checked_pred16 count) length_overflow else ok count

unfoldable pub parse_principal : ℕ → Endian → Reader Error Principal
unfolding component_count
parse_principal version endian = do
  raw_count ← read_i16 endian
  count ← lift (component_count version raw_count)
  n ← lift (non_negative count)
  realm ← read_counted_string endian
  components ← read_many n (read_counted_string endian)
  name_type ← if version == 1 then pure (pos 0) else read_i32 endian
  pure (record { realm = realm; components = components; name_type = name_type })

-- The 32-bit version number is read if four bytes are left; `kvno8` stands in for a missing or
-- zero one.
unfoldable pub read_kvno : Endian → ℕ → Reader Error ℕ
read_kvno endian kvno8 bytes offset =
    bind
      (if ltb (length bytes - offset) 4 then ok (kvno8, offset) else read_u32 endian bytes offset)
      λ (kvno, offset'). ok ((if kvno == 0 then kvno8 else kvno), offset')

unfoldable pub parse_entry : ℕ → Endian → Reader Error Entry
parse_entry version endian = do
  principal ← parse_principal version endian
  timestamp ← read_u32 endian
  kvno8 ← read_u8
  etype ← read_i16 endian
  key_len ← read_i16 endian
  n ← lift (non_negative key_len)
  value ← read_bytes n
  kvno ← read_kvno endian kvno8
  pure (record {
    principal = principal;
    timestamp = timestamp;
    kvno8 = kvno8;
    key = record { etype = etype; value = value };
    kvno = kvno;
  })

-- One round of the loop, after the length of the block has been read: a zero ends the file, a
-- negative length is a deleted record, and `next` goes on behind the block.
unfoldable pub parse_block :
    (ℕ → Result Error (List Entry)) → ℕ → Endian → Bytes → ℕ → ℤ → Result Error (List Entry)
parse_block next version endian bytes offset (pos zero) = ok []
parse_block next version endian bytes offset (pos (suc n)) =
    bind (checked_end bytes offset (suc n)) λ end.
      bind (parse_entry version endian (take (suc n) (drop offset bytes)) 0)
        λ (entry, _). bind (next end) λ entries. ok (entry ∷ entries)
parse_block next version endian bytes offset (negsuc n) =
    if ltb n 0x7fffffff then bind (checked_end bytes offset (suc n)) next else err length_overflow

unfoldable pub parse_entries : ℕ → ℕ → Endian → Bytes → ℕ → Result Error (List Entry)
unfolding parse_block
parse_entries zero version endian bytes offset = stuck
parse_entries (suc fuel) version endian bytes offset =
    if ltb (length bytes - offset) 4
    then ok []
    else bind (read_i32 endian bytes offset) λ (entry_len, start).
      parse_block (parse_entries fuel version endian bytes) version endian bytes start entry_len

-- Each round of the loop reads four bytes at least, so the length of the input is fuel enough.
unfoldable pub parse : Bool → Bytes → Result Error Keytab
parse host_little bytes =
    if ltb (length bytes) 2
    then err (too_short (length bytes))
    else if not (get_or bytes 0 0 == keytab_first_byte)
    then err (invalid_first_byte (get_or bytes 0 0))
    else let version = get_or bytes 1 0 in
      if not (version == 1) && not (version == 2)
      then err (invalid_version version)
      else bind
          (parse_entries (length bytes) version (endian_for_version host_little version) bytes 2)
          λ entries. ok (record { version = version; entries = entries })

-- ===== src/Wire.antt =====
-- The byte primitives at the end of src/keytab.rs and of src/ccache.rs. The two files hold the same
-- text, each over its own `Error`, so they stand here once, over any error type that has the four
-- variants which they raise. A `&[u8]` and an offset are a list of numbers and a number, and a
-- `usize` has 64 bits.
pub mod Slices
pub mod Numbers
pub mod Reads
pub mod Range
pub mod Advance
use rskrb.Prelude.{
  ℕ, zero, suc, ◌+◌, ◌-◌, ◌*◌, ◌/◌, ◌%◌, ◌^◌, ◌<◌, List, [], ◌∷◌, ◌++◌, Option, none, some, ltb,
  if◌then◌else◌, length, take, drop, get_or,
}
use rskrb.Prelude.Int.{ℤ, pos, negsuc}
use rskrb.Result.{Result, ok, err, bind}
use rskrb.Utf8.{is_utf8}

abbrev pub Bytes : Type 0
Bytes = List ℕ

-- The variants that the primitives raise, in an error type of the source. The payload of
-- `InvalidString`, a `Utf8Error`, is left out.
pub record WireError (E : Type 0) : Type 0 where
  pub truncated : ℕ → ℕ → ℕ → E
  pub negative_length : ℤ → E
  pub length_overflow : E
  pub invalid_string : E

pub data Endian : Type 0 where
  big little : Endian

-- A function of `(bytes, offset: &mut usize)`.
abbrev pub Reader : Type 0 → Type 0 → Type 0
Reader E A = Bytes → ℕ → Result E (A × ℕ)

abbrev pub lift : {E A : Type 0} → Result E A → Reader E A
lift r bytes offset = bind r λ a. ok (a, offset)

abbrev pub pure : {E A : Type 0} → A → Reader E A
pure a bytes offset = ok (a, offset)

-- Shut, so that the rules for a `do` block see its steps.
infixl 5 ◌>>=◌
unfoldable pub ◌>>=◌ : {E A B : Type 0} → Reader E A → (A → Reader E B) → Reader E B
◌>>=◌ m f bytes offset = bind (m bytes offset) λ (a, offset'). f a bytes offset'

-- `for _ in 0..count { items.push(read()?) }`
unfoldable pub read_many : {E A : Type 0} → ℕ → Reader E A → Reader E (List A)
read_many zero read = pure []
read_many (suc count) read = do item ← read; items ← read_many count read; pure (item ∷ items)

-- `u16::from_be_bytes`, `from_le_bytes`, and so on.
abbrev pub from_bytes16 : Endian → ℕ → ℕ → ℕ
from_bytes16 big a b = a * 256 + b
from_bytes16 little a b = b * 256 + a

abbrev pub from_bytes32 : Endian → ℕ → ℕ → ℕ → ℕ → ℕ
from_bytes32 big a b c d = ((a * 256 + b) * 256 + c) * 256 + d
from_bytes32 little a b c d = ((d * 256 + c) * 256 + b) * 256 + a

abbrev pub to_bytes16 : Endian → ℕ → Bytes
to_bytes16 big v = (v / 256 % 256) ∷ (v % 256) ∷ []
to_bytes16 little v = (v % 256) ∷ (v / 256 % 256) ∷ []

abbrev pub to_bytes32 : Endian → ℕ → Bytes
to_bytes32 big v = (v / 0x1000000 % 256) ∷ (v / 0x10000 % 256) ∷ (v / 256 % 256) ∷ (v % 256) ∷ []
to_bytes32 little v = (v % 256) ∷ (v / 256 % 256) ∷ (v / 0x10000 % 256) ∷ (v / 0x1000000 % 256) ∷ []

-- The signed number that a bit pattern stands for, and the pattern of a signed number.
abbrev pub signed16 : ℕ → ℤ
signed16 v = if ltb v 0x8000 then pos v else negsuc (0xffff - v)

abbrev pub signed32 : ℕ → ℤ
signed32 v = if ltb v 0x80000000 then pos v else negsuc (0xffffffff - v)

abbrev pub pattern16 : ℤ → ℕ
pattern16 (pos n) = n
pattern16 (negsuc n) = 0xffff - n

abbrev pub pattern32 : ℤ → ℕ
pattern32 (pos n) = n
pattern32 (negsuc n) = 0xffffffff - n

-- `try_into` a `u16`, an `i16`, an `i32`, from an `i32` or a `usize`.
abbrev pub try_u16 : ℤ → Option ℕ
try_u16 (pos n) = if ltb n 0x10000 then some n else none
try_u16 (negsuc n) = none

abbrev pub try_i16 : ℤ → Option ℤ
try_i16 (pos n) = if ltb n 0x8000 then some (pos n) else none
try_i16 (negsuc n) = if ltb n 0x8000 then some (negsuc n) else none

abbrev pub try_i32 : ℕ → Option ℤ
try_i32 n = if ltb n 0x80000000 then some (pos n) else none

abbrev pub ok_or : {E A : Type 0} → Option A → E → Result E A
ok_or none e = err e
ok_or (some a) e = ok a

-- `write_i32`, `write_u32` and `write_u16` cannot fail.
unfoldable pub write_i32 : Bytes → ℤ → Endian → Bytes
write_i32 out value endian = out ++ to_bytes32 endian (pattern32 value)

unfoldable pub write_u32 : Bytes → ℕ → Endian → Bytes
write_u32 out value endian = out ++ to_bytes32 endian value

unfoldable pub write_u16 : Bytes → ℕ → Endian → Bytes
write_u16 out value endian = out ++ to_bytes16 endian value

module _ {E : Type 0} ⦃w : WireError E⦄ where
  unfoldable pub checked_end : Bytes → ℕ → ℕ → Result E ℕ
  checked_end bytes offset len =
      if ltb (offset + len) (2 ^ 64)
      then (if ltb (length bytes) (offset + len)
          then err (w.truncated offset len (length bytes - offset))
          else ok (offset + len))
      else err w.length_overflow

  -- `&bytes[start..end]` with `end = start + len`.
  unfoldable pub read_bytes : ℕ → Reader E Bytes
  unfolding checked_end
  read_bytes len bytes offset =
      bind (checked_end bytes offset len) λ end. ok (take len (drop offset bytes), end)

  -- `raw[i]` is in range, since `raw` has the length that was asked for.
  unfoldable pub read_u8 : Reader E ℕ
  read_u8 = do raw ← read_bytes 1; pure (get_or raw 0 0)

  unfoldable pub read_u16 : Endian → Reader E ℕ
  read_u16 endian = do
    raw ← read_bytes 2
    pure (from_bytes16 endian (get_or raw 0 0) (get_or raw 1 0))

  unfoldable pub read_i16 : Endian → Reader E ℤ
  read_i16 endian = do
    raw ← read_bytes 2
    pure (signed16 (from_bytes16 endian (get_or raw 0 0) (get_or raw 1 0)))

  unfoldable pub read_u32 : Endian → Reader E ℕ
  read_u32 endian = do
    raw ← read_bytes 4
    pure (from_bytes32 endian (get_or raw 0 0) (get_or raw 1 0) (get_or raw 2 0) (get_or raw 3 0))

  unfoldable pub read_i32 : Endian → Reader E ℤ
  read_i32 endian = do
    raw ← read_bytes 4
    let v = from_bytes32 endian (get_or raw 0 0) (get_or raw 1 0) (get_or raw 2 0) (get_or raw 3 0)
    pure (signed32 v)

  -- `if len < 0 { return Err(Error::NegativeLength(len)) }`, and the length as a `usize`.
  abbrev pub non_negative : ℤ → Result E ℕ
  non_negative (pos n) = ok n
  non_negative (negsuc n) = err (w.negative_length (negsuc n))

  -- `std::str::from_utf8(raw)?.to_owned()`
  abbrev pub from_utf8 : Bytes → Result E Bytes
  from_utf8 raw = if is_utf8 raw then ok raw else err w.invalid_string

  unfoldable pub write_u16_checked : Bytes → ℤ → Endian → Result E Bytes
  write_u16_checked out value endian =
      bind (ok_or (try_u16 value) w.length_overflow) λ v. ok (write_u16 out v endian)

  unfoldable pub write_i16_checked : Bytes → ℤ → Endian → Result E Bytes
  write_i16_checked out value endian =
      bind (ok_or (try_i16 value) w.length_overflow)
        λ v. ok (out ++ to_bytes16 endian (pattern16 v))

  unfoldable pub write_i32_len_checked : Bytes → ℕ → Endian → Result E Bytes
  write_i32_len_checked out value endian =
      bind (ok_or (try_i32 value) w.length_overflow) λ v. ok (write_i32 out v endian)

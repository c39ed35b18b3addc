-- ===== src/Keytab/Blocks.antt =====
-- A keytab file as a sequence of blocks: live entries, deleted records, and what may follow them.
use rskrb.Prelude.{ℕ, suc, ◌^◌, ◌<◌, ◌≡◌, Bool, List, [], ◌∷◌, ◌++◌, length}
use rskrb.Prelude.Int.{negsuc}
use rskrb.Wire.{Bytes, Endian, to_bytes32, pattern32}
use rskrb.Wire.Reads.{concat_map}
use rskrb.Keytab.{wire_error, Entry, endian_for_version, keytab_first_byte}
use rskrb.Keytab.Format.{entry_bytes, IsEntry}

-- A block of a file: an entry, or the bytes of a deleted record.
pub data Block : Type 0 where
  live : Entry → Block
  deleted : ℕ → Bytes → Block

-- A deleted record of `suc n` bytes has the length -(n + 1).
unfoldable pub block_bytes : ℕ → Endian → Block → Bytes
block_bytes version e (live entry) = entry_bytes version e entry
block_bytes version e (deleted n raw) = to_bytes32 e (pattern32 (negsuc n)) ++ raw

abbrev pub live_entries : List Block → List Entry
live_entries [] = []
live_entries (live entry ∷ bs) = entry ∷ live_entries bs
live_entries (deleted n raw ∷ bs) = live_entries bs

abbrev pub IsBlock : ℕ → Endian → Block → Type 0
IsBlock version e (live entry) = IsEntry version entry
IsBlock version e (deleted n raw) = (length raw ≡ suc n) × (suc n < 2 ^ 31)

-- What ends a file: fewer than four bytes, or a length of zero with anything behind it.
pub data Tail : Type 0 where
  short : Bytes → Tail
  closed : Bytes → Tail

abbrev pub tail_bytes : Endian → Tail → Bytes
tail_bytes e (short raw) = raw
tail_bytes e (closed raw) = to_bytes32 e 0 ++ raw

abbrev pub IsTail : Tail → Type 0
IsTail (short raw) = length raw < 4
IsTail (closed raw) = Unit {0}

-- The bytes of a file with the given blocks and tail.
abbrev pub file_bytes : Bool → ℕ → List Block → Tail → Bytes
file_bytes host_little version bs t =
    let e = endian_for_version host_little version in
    keytab_first_byte ∷ version ∷ (concat_map (block_bytes version e) bs ++ tail_bytes e t)

-- ===== src/CCache/Advance.antt =====
-- How far the readers of src/ccache.rs move: each forward, a credential by a byte at least.
use rskrb.Prelude.{◌≡◌, ◌+◌, length, drop, length-take, length-drop, ℕ, arith}
use rskrb.Result.{Ensures, holds, Ensures-bind}
use rskrb.Wire.{Bytes, read_u16, read_bytes, ◌>>=◌, Endian, Reader}
use rskrb.Wire.Range.{checked_end-Ensures}
use rskrb.CCache.{wire_error, Error}
use rskrb.CCache.Parser.{
  read_count, read_data, read_counted_string, parse_principal, parse_address, parse_auth_data,
  read_etype, read_times, read_counted, parse_credential,
}
use rskrb.Wire.Advance.{
  Advances, Advances-pure, Advances-lift, Advances-if, Advances-first, Advances-later,
  Advances-many, Advances-back, Advances-i32, Forward-bytes, Forward-u8, Forward-u16, Forward-i16,
  Forward-u32, Forward-i32,
}

ruleset steps = (
  Advances-pure, Advances-lift, Advances-if, Advances-first, Advances-many, Forward-bytes,
  Forward-u8, Forward-u16, Forward-i16, Forward-u32, Forward-i32,
)

Forward-count : (e : Endian) → Advances 0 (read_count e)
unfolding read_count
Forward-count e = search steps

Forward-data : (e : Endian) → Advances 0 (read_data e)
unfolding read_data
Forward-data e = search (steps, Forward-count)

Forward-counted_string : (e : Endian) → Advances 0 (read_counted_string e)
unfolding read_counted_string
Forward-counted_string e = search (steps, Forward-data)

Advances-principal : (version : ℕ) (e : Endian) → Advances 4 (parse_principal version e)
unfolding parse_principal
Advances-principal version e =
    Advances-later _ 4 (search steps) λ t.
      Advances-first _ 4 (Advances-i32 e) λ raw. search (steps, Forward-counted_string) depth 12

Forward-principal : (version : ℕ) (e : Endian) → Advances 0 (parse_principal version e)
Forward-principal version e = Advances-back 4 (Advances-principal version e)

Forward-etype : (version : ℕ) (e : Endian) → Advances 0 (read_etype version e)
unfolding read_etype
Forward-etype version e = search steps

Forward-times : (e : Endian) → Advances 0 (read_times e)
unfolding read_times
Forward-times e = search steps depth 12

Forward-address : (e : Endian) → Advances 0 (parse_address e)
unfolding parse_address
Forward-address e = search (steps, Forward-data) depth 12

Forward-auth_data : (e : Endian) → Advances 0 (parse_auth_data e)
unfolding parse_auth_data
Forward-auth_data e = search (steps, Forward-data) depth 12

Forward-counted :
    {A : Type 0} (e : Endian) {p : Reader Error A} → Advances 0 p → Advances 0 (read_counted e p)
unfolding read_counted
Forward-counted e g = Advances-first _ 0 (Forward-count e) λ n. Advances-many n g

pub Advances-credential : (version : ℕ) (e : Endian) → Advances 4 (parse_credential version e)
unfolding parse_credential
Advances-credential version e = Advances-first _ 4 (Advances-principal version e) λ client.
    search
      (
        steps, Forward-principal, Forward-etype, Forward-data, Forward-times, Forward-counted,
        Forward-address, Forward-auth_data,
      )
      depth 20

-- A slice has the length that was asked for, and takes as much.
pub read_bytes-Ensures :
    (n : ℕ) (bytes : Bytes) (offset : ℕ)
    → Ensures
        (λ (raw, offset'). (offset' ≡ offset + n) × (length raw ≡ n))
        (read_bytes {E = Error} n bytes offset)
unfolding read_bytes
read_bytes-Ensures n bytes offset =
    Ensures-bind _ (checked_end-Ensures bytes offset n) λ end (moved, inside).
      holds (moved, omega (arith, length-take n (drop offset bytes), length-drop offset bytes))

pub read_u16-Ensures :
    (e : Endian) (bytes : Bytes) (offset : ℕ)
    → Ensures (λ (v, offset'). offset' ≡ offset + 2) (read_u16 {E = Error} e bytes offset)
unfolding read_u16 ◌>>=◌
read_u16-Ensures e bytes offset =
    Ensures-bind _ (read_bytes-Ensures 2 bytes offset) λ (raw, o) (moved, _). holds moved

-- ===== src/Wire/Slices.antt =====
-- What `checked_end` and `read_bytes` of src/keytab.rs and src/ccache.rs return, and when.
use rskrb.Prelude.{
  ℕ, ◌+◌, ◌-◌, ◌^◌, ◌≤◌, ◌<◌, ◌≡◌, ◌++◌, arith, length, take, drop, length-append, drop-append,
  take-append, lt→ltb, le→not_ltb,
}
use rskrb.Result.{ok, err}
use rskrb.Wire.{Bytes, WireError, checked_end, read_bytes}

module _ {E : Type 0} ⦃w : WireError E⦄ where
  pub checked_end-append :
      (raw pre rest : Bytes)
      → length (pre ++ (raw ++ rest)) < 2 ^ 64
      → checked_end {E = E} (pre ++ (raw ++ rest)) (length pre) (length raw)
        ≡ ok (length pre + length raw)
  unfolding checked_end
  checked_end-append raw pre rest h = rw (
    lt→ltb (length pre + length raw) (2 ^ 64)
        (omega (arith, length-append pre (raw ++ rest), length-append raw rest)),
    le→not_ltb (length (pre ++ (raw ++ rest))) (length pre + length raw)
        (omega (arith, length-append pre (raw ++ rest), length-append raw rest)),
  )

  -- A slice that lies inside the input is cut out, and the offset moves behind it.
  pub read_bytes-append :
      (raw pre rest : Bytes)
      → length (pre ++ (raw ++ rest)) < 2 ^ 64
      → read_bytes {E = E} (length raw) (pre ++ (raw ++ rest)) (length pre)
        ≡ ok (raw, length pre + length raw)
  unfolding read_bytes
  read_bytes-append raw pre rest h =
      rw (checked_end-append raw pre rest h, drop-append pre (raw ++ rest), take-append raw rest)

  -- A successful read ends at the new offset, inside the input.
  pub read_bytes_inv :
      (len : ℕ) (bytes : Bytes) (offset : ℕ) {raw : Bytes} {offset' : ℕ}
      → read_bytes {E = E} len bytes offset ≡ ok (raw, offset')
      → (offset' ≡ offset + len) × (offset' ≤ length bytes) × (raw ≡ take len (drop offset bytes))
  unfolding read_bytes checked_end
  read_bytes_inv len bytes offset h = ground arith

  -- The error path: a read past the end reports where it started, what it needed and what was left.
  pub read_bytes_truncated :
      (len : ℕ) (bytes : Bytes) (offset : ℕ)
      → offset + len < 2 ^ 64
      → length bytes < offset + len
      → read_bytes len bytes offset ≡ err (w.truncated offset len (length bytes - offset))
  unfolding read_bytes checked_end
  read_bytes_truncated len bytes offset h k = ground arith

-- ===== src/Keytab/Rounds.antt =====
-- One round of the loop of `Keytab::parse` (src/keytab.rs) on each kind of block.
use rskrb.Prelude.{
  ℕ, zero, suc, ◌+◌, ◌-◌, ◌^◌, ◌<◌, ◌≡◌, refl, ◌∙◌, List, [], ◌∷◌, ◌++◌, append_assoc, arith,
  lt→ltb, length, length-append, drop-append, take-append, le→not_ltb,
}
use rskrb.Prelude.Int.{ℤ, pos, negsuc}
use rskrb.Result.{Result, ok, bind}
use rskrb.Wire.{Bytes, Endian, to_bytes32, pattern32}
use rskrb.Wire.Numbers.{FitsI32, length-to_bytes32}
use rskrb.Wire.Slices.{checked_end-append}
use rskrb.Wire.Reads.{Reads-i32, Reads-whole}
use rskrb.Keytab.{Error, wire_error, Entry, parse_entry, parse_block, parse_entries}
use rskrb.Keytab.Format.{body_bytes, principal_bytes, IsEntry}
use rskrb.Keytab.Parsing.{Reads-entry}
use rskrb.Keytab.Blocks.{Tail, short, closed, tail_bytes, IsTail}

pub length-body_bytes_pos :
    (version : ℕ) (e : Endian) (entry : Entry) → 0 < length (body_bytes version e entry)
unfolding body_bytes principal_bytes
length-body_bytes_pos version Endian.big entry = omega arith
length-body_bytes_pos version Endian.little entry = omega arith

-- One round on a body of known length.
pub parse_block-live :
    (next : ℕ → Result Error (List Entry)) (version : ℕ) (e : Endian) (entry : Entry)
    (pre rest : Bytes)
    → IsEntry version entry
    → length (pre ++ (body_bytes version e entry ++ rest)) < 2 ^ 64
    → (n : ℕ) → n ≡ length (body_bytes version e entry)
    → parse_block next version e (pre ++ (body_bytes version e entry ++ rest)) (length pre) (pos n)
      ≡ bind (next (length pre + length (body_bytes version e entry))) λ es. ok (entry ∷ es)
parse_block-live next version e entry pre rest v h zero q =
    absurd (omega (arith, length-body_bytes_pos version e entry))
parse_block-live next version e entry pre rest v h (suc n) q =
    unfold parse_block in
    rw (
      q,
      checked_end-append body pre rest h,
      drop-append pre (body ++ rest),
      take-append body rest,
      whole,
    )
  where
    body : Bytes
    body = body_bytes version e entry

    whole : parse_entry version e body 0 ≡ ok (entry, length body)
    whole =
        Reads-whole (Reads-entry version e entry v)
          (omega (arith, length-append pre (body ++ rest), length-append body rest))

pub parse_block-deleted :
    (next : ℕ → Result Error (List Entry)) (version : ℕ) (e : Endian) (n : ℕ) (raw pre rest : Bytes)
    → length raw ≡ suc n
    → suc n < 2 ^ 31
    → length (pre ++ (raw ++ rest)) < 2 ^ 64
    → parse_block next version e (pre ++ (raw ++ rest)) (length pre) (negsuc n)
      ≡ next (length pre + length raw)
unfolding parse_block
parse_block-deleted next version e n raw pre rest q small h =
    rw (lt→ltb n 0x7fffffff (omega arith), ← q, checked_end-append raw pre rest h)

pub parse_entries-header :
    (fuel version : ℕ) (e : Endian) (v : ℤ) (pre rest : Bytes)
    → FitsI32 v
    → length (pre ++ (to_bytes32 e (pattern32 v) ++ rest)) < 2 ^ 64
    → parse_entries (suc fuel) version e (pre ++ (to_bytes32 e (pattern32 v) ++ rest)) (length pre)
      ≡ parse_block
          (parse_entries fuel version e ((pre ++ to_bytes32 e (pattern32 v)) ++ rest))
          version
          e
          ((pre ++ to_bytes32 e (pattern32 v)) ++ rest)
          (length (pre ++ to_bytes32 e (pattern32 v)))
          v
unfolding parse_entries
parse_entries-header fuel version e v pre rest fits h =
    let hdr : Bytes = to_bytes32 e (pattern32 v) in
    rw (
      le→not_ltb (length (pre ++ (hdr ++ rest)) - length pre) 4 (
          omega (
            arith,
            length-append pre (hdr ++ rest),
            length-append hdr rest,
            length-to_bytes32 e (pattern32 v),
          )),
      (Reads-i32 {E = Error} e v fits).reads pre rest h,
      append_assoc pre hdr rest,
      length-append pre hdr,
    )

pub parse_entries-tail :
    (fuel version : ℕ) (e : Endian) (pre : Bytes) (t : Tail)
    → IsTail t
    → length (pre ++ tail_bytes e t) < 2 ^ 64
    → parse_entries (suc fuel) version e (pre ++ tail_bytes e t) (length pre) ≡ ok []
parse_entries-tail fuel version e pre (short raw) ht h =
    unfold parse_entries in
    rw (lt→ltb (length (pre ++ raw) - length pre) 4 (omega (arith, length-append pre raw)))
parse_entries-tail fuel version e pre (closed raw) ht h =
    parse_entries-header fuel version e (pos 0) pre raw (omega arith) h ∙ unfold parse_block in refl

-- A round on a block, of its length `v` and its payload `raw`.
module _ (fuel version : ℕ) (e : Endian) (v : ℤ) (raw pre rest : Bytes) (v_fits : FitsI32 v)
    (fits : length (pre ++ ((to_bytes32 e (pattern32 v) ++ raw) ++ rest)) < 2 ^ 64) where
  abbrev pub header : Bytes
  header = to_bytes32 e (pattern32 v)

  pub regroup : (pre ++ header) ++ (raw ++ rest) ≡ (pre ++ (header ++ raw)) ++ rest
  regroup = simp append_assoc

  pub round_fits : length ((pre ++ header) ++ (raw ++ rest)) < 2 ^ 64
  round_fits = rw (append_assoc, ← append_assoc header raw rest) fits

  pub round :
      {r : Result Error (List Entry)}
      → parse_block
          (parse_entries fuel version e ((pre ++ header) ++ (raw ++ rest)))
          version
          e
          ((pre ++ header) ++ (raw ++ rest))
          (length (pre ++ header))
          v
        ≡ r
      → parse_entries (suc fuel) version e (pre ++ ((header ++ raw) ++ rest)) (length pre) ≡ r
  round step =
      let g : (header ++ raw) ++ rest ≡ header ++ (raw ++ rest) = append_assoc header raw rest in
      rw g (parse_entries-header fuel version e v pre (raw ++ rest) v_fits (rw g at fits) ∙ step)

  -- Going on behind the payload is going on behind the block.
  pub after :
      {r : Result Error (List Entry)}
      → parse_entries fuel version e
          ((pre ++ (header ++ raw)) ++ rest)
          (length (pre ++ (header ++ raw)))
        ≡ r
      → parse_entries fuel version e
          ((pre ++ header) ++ (raw ++ rest))
          (length (pre ++ header) + length raw)
        ≡ r
  after step =
      let g : length (pre ++ (header ++ raw)) ≡ length (pre ++ header) + length raw = omega (
        arith,
        length-append pre (header ++ raw),
        length-append header raw,
        length-append pre header,
      ) in
      rw (regroup, ← g) step

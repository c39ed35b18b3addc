-- ===== src/Keytab/RoundTrip.antt =====
-- The loop of `Keytab::parse` (src/keytab.rs) on whole files.
use mathlib.Core.Path.{subst, ap₂, sym}
use rskrb.Prelude.{
  ℕ, zero, suc, ◌^◌, ◌≤◌, ◌<◌, ◌≡◌, refl, ap, ◌∙◌, ◌⊎◌, Bool, List, [], ◌∷◌, ◌++◌, append_assoc,
  append-nil, arith, length, length-append, All, map,
}
use rskrb.Prelude.Int.{ℤ, pos, negsuc}
use rskrb.Result.{ok, bind}
use rskrb.Wire.{Bytes, Endian, to_bytes32, pattern32}
use rskrb.Wire.Numbers.{FitsI32, length-to_bytes32}
use rskrb.Wire.Reads.{concat_map}
use rskrb.Keytab.{
  wire_error, endian_for_version, keytab_first_byte, parse_entries, parse, Entry, Keytab,
}
use rskrb.Keytab.Format.{
  IsU16, IsUnsigned, wrap_etype, wrap_etypes, IsKeytab, keytab_bytes, body_bytes, entry_bytes,
  IsEntry,
}
use rskrb.Keytab.Blocks.{
  Block, live, deleted, short, block_bytes, live_entries, IsBlock, Tail, tail_bytes, IsTail,
  file_bytes,
}
use rskrb.Keytab.Size.{length-body_bytes-lt}
use rskrb.Keytab.Rounds.{
  parse_entries-tail, parse_block-live, parse_block-deleted, length-body_bytes_pos, round, after,
  round_fits,
}
use rskrb.Keytab.Writer.{to_bytes}
use rskrb.Keytab.Writing.{to_bytes-wrap_etypes, wrap_etype_id}
use rskrb.Wire.Range.{IsByte}
use rskrb.Keytab.Range.{parse-IsEntry}

-- What the loop returns behind `pre`, for the blocks that stand there.
parse_entries-blocks :
    (bs : List Block) (fuel version : ℕ) (e : Endian) (pre : Bytes) (t : Tail)
    → All (IsBlock version e) bs
    → IsTail t
    → length bs < fuel
    → length (pre ++ (concat_map (block_bytes version e) bs ++ tail_bytes e t)) < 2 ^ 64
    → parse_entries fuel version e
        (pre ++ (concat_map (block_bytes version e) bs ++ tail_bytes e t))
        (length pre)
      ≡ ok (live_entries bs)
unfolding block_bytes entry_bytes
parse_entries-blocks bs zero version e pre t hb ht hf h = absurd (omega arith)
parse_entries-blocks [] (suc fuel) version e pre t hb ht hf h =
    parse_entries-tail fuel version e pre t ht h
parse_entries-blocks (live entry ∷ bs) (suc fuel) version e pre t (v, hb) ht hf h =
    let body = body_bytes version e entry in
    let fits = length-body_bytes-lt version e entry v in
    let block = entry_bytes version e entry in
    let more : Bytes = concat_map (block_bytes version e) bs ++ tail_bytes e t in
    let g : (block ++ concat_map (block_bytes version e) bs) ++ tail_bytes e t ≡ block ++ more =
      append_assoc block _ _ in
    let h' : length (pre ++ (block ++ more)) < 2 ^ 64 = rw g at h in
    let n : ℤ = pos (length body) in
    let rest =
      parse_entries-blocks bs fuel version e (pre ++ block) t hb ht (omega arith)
        (rw (append_assoc pre block more) h') in
    rw g (
      round fuel version e n body pre more fits h' (
        parse_block-live _ version e entry _ more v
          (round_fits fuel version e n body pre more fits h') (length body) refl
        ∙ ap (λ r. bind r λ es. ok (entry ∷ es))
            (after fuel version e n body pre more fits h' rest)))
parse_entries-blocks (deleted k raw ∷ bs) (suc fuel) version e pre t ((q, fits), hb) ht hf h =
    let block : Bytes = to_bytes32 e (pattern32 (negsuc k)) ++ raw in
    let more : Bytes = concat_map (block_bytes version e) bs ++ tail_bytes e t in
    let g : (block ++ concat_map (block_bytes version e) bs) ++ tail_bytes e t ≡ block ++ more =
      append_assoc block _ _ in
    let h' : length (pre ++ (block ++ more)) < 2 ^ 64 = rw g at h in
    let n : ℤ = negsuc k in
    let rest =
      parse_entries-blocks bs fuel version e (pre ++ block) t hb ht (omega arith)
        (rw (append_assoc pre block more) h') in
    let small : FitsI32 n = omega arith in
    rw g (
      round fuel version e n raw pre more small h' (
        parse_block-deleted _ version e k raw _ more q fits
          (round_fits fuel version e n raw pre more small h')
        ∙ after fuel version e n raw pre more small h' rest))

length-concat_map-block_bytes :
    (bs : List Block) (version : ℕ) (e : Endian) (t : Tail)
    → length bs ≤ length (concat_map (block_bytes version e) bs ++ tail_bytes e t)
length-concat_map-block_bytes [] version e t = omega arith
length-concat_map-block_bytes (b ∷ bs) version e t = omega (
  arith,
  length-append (block_bytes version e b ++ concat_map (block_bytes version e) bs) (tail_bytes e t),
  length-append (block_bytes version e b) (concat_map (block_bytes version e) bs),
  length-append (concat_map (block_bytes version e) bs) (tail_bytes e t),
  length-concat_map-block_bytes bs version e t,
  length-block_bytes_pos b,
)
  where
    length-block_bytes_pos : (b : Block) → 0 < length (block_bytes version e b)
    length-block_bytes_pos (live entry) =
        unfold block_bytes entry_bytes in
        omega (
          arith,
          length-append (to_bytes32 e _) (body_bytes version e entry),
          length-body_bytes_pos version e entry,
        )
    length-block_bytes_pos (deleted n raw) =
        unfold block_bytes in
        omega (
          arith,
          length-append (to_bytes32 e (pattern32 (negsuc n))) raw,
          length-to_bytes32 e (pattern32 (negsuc n)),
        )

-- On a file of version 1 or 2 that is made of blocks, whatever the byte order of the host, `parse`
-- returns the live entries in their order: deleted records are skipped, and so is what stands behind
-- the last block, fewer than four bytes or anything behind a block of length zero.
pub parse-file_bytes :
    (host_little : Bool) (version : ℕ) (bs : List Block) (t : Tail)
    → (version ≡ 1) ⊎ (version ≡ 2)
    → All (IsBlock version (endian_for_version host_little version)) bs
    → IsTail t
    → length (file_bytes host_little version bs t) < 2 ^ 64
    → parse host_little (file_bytes host_little version bs t)
      ≡ ok (record { version = version; entries = live_entries bs })
unfolding parse
parse-file_bytes host_little version bs t hv hb ht h =
    let loop =
      parse_entries-blocks bs (length (file_bytes host_little version bs t)) version
        (endian_for_version host_little version) (keytab_first_byte ∷ version ∷ []) t hb ht
        (omega (
          arith,
          length-concat_map-block_bytes bs version (endian_for_version host_little version) t,
        ))
        h in
    ground (arith, loop)

abbrev all_live : List Entry → List Block
all_live [] = []
all_live (entry ∷ es) = live entry ∷ all_live es

all_live-bytes :
    (es : List Entry) (version : ℕ) (e : Endian)
    → concat_map (block_bytes version e) (all_live es) ≡ concat_map (entry_bytes version e) es
unfolding block_bytes
all_live-bytes [] version e = refl
all_live-bytes (entry ∷ es) version e =
    ap (λ t. entry_bytes version e entry ++ t) (all_live-bytes es version e)

all_live-IsBlock :
    (es : List Entry) (version : ℕ) (e : Endian)
    → All (IsEntry version) es
    → All (IsBlock version e) (all_live es)
all_live-IsBlock [] version e h = tt
all_live-IsBlock (entry ∷ es) version e (h, hs) = (h, all_live-IsBlock es version e hs)

live_entries-all_live : (es : List Entry) → live_entries (all_live es) ≡ es
live_entries-all_live [] = refl
live_entries-all_live (entry ∷ es) = ap (λ t. entry ∷ t) (live_entries-all_live es)

keytab_bytes-file_bytes :
    (host_little : Bool) (k : Keytab)
    → file_bytes host_little k.version (all_live k.entries) (short []) ≡ keytab_bytes host_little k
unfolding keytab_bytes
keytab_bytes-file_bytes host_little k = rw (all_live-bytes, append-nil)

parse-keytab_bytes :
    (host_little : Bool) (k : Keytab)
    → IsKeytab host_little k
    → parse host_little (keytab_bytes host_little k) ≡ ok k
parse-keytab_bytes host_little k v =
    let same = keytab_bytes-file_bytes host_little k in
    rw (← same) (
      parse-file_bytes host_little k.version (all_live k.entries) (short []) v.version_known
        (all_live-IsBlock k.entries k.version (endian_for_version host_little k.version)
          v.entries_valid)
        (omega arith) (subst (λ b. length b < 2 ^ 64) (sym same) v.file_fits)
      ∙ rw live_entries-all_live)

-- Whatever encryption types below 65536 a keytab has, writing it succeeds, and parsing the bytes
-- gives the keytab in which each of them is read as a signed 16-bit number: 32768 and above come
-- back negative. The rest of the keytab is as the format can hold it.
pub parse-to_bytes_wrapped :
    (host_little : Bool) (k : Keytab)
    → All IsU16 k.entries
    → IsKeytab host_little (wrap_etypes k)
    → bind (to_bytes host_little k) (parse host_little) ≡ ok (wrap_etypes k)
parse-to_bytes_wrapped host_little k u v =
    rw (to_bytes-wrap_etypes host_little k u v) (parse-keytab_bytes host_little (wrap_etypes k) v)

map-wrap_etype_id :
    (version : ℕ) (es : List Entry) → All (IsEntry version) es → map wrap_etype es ≡ es
map-wrap_etype_id version [] h = refl
map-wrap_etype_id version (entry ∷ es) (h, hs) =
    ap₂ (λ x xs. x ∷ xs) (wrap_etype_id entry h) (map-wrap_etype_id version es hs)

unsigned-IsU16 :
    (version : ℕ) (es : List Entry) → All (IsEntry version) es → All IsUnsigned es → All IsU16 es
unsigned-IsU16 version [] h u = tt
unsigned-IsU16 version (entry ∷ es) (h, hs) ((n, q), us) =
    let small : n < 0x8000 = rw q at h.etype_fits in
    ((n, q, omega arith), unsigned-IsU16 version es hs us)

-- Writing a keytab that the format can hold (`IsKeytab`), with no negative encryption type, succeeds,
-- and parsing the bytes gives the keytab back, in both versions and on hosts of both byte orders.
pub parse-to_bytes :
    (host_little : Bool) (k : Keytab)
    → IsKeytab host_little k
    → All IsUnsigned k.entries
    → bind (to_bytes host_little k) (parse host_little) ≡ ok k
parse-to_bytes host_little k v u =
    let same : wrap_etypes k ≡ k =
      λ i. record k { entries = map-wrap_etype_id k.version k.entries v.entries_valid i } in
    parse-to_bytes_wrapped host_little k (unsigned-IsU16 k.version k.entries v.entries_valid u)
      (subst (IsKeytab host_little) (sym same) v)
    ∙ ap ok same

-- Parsing is stable under writing: what `parse` returned, on bytes, is written again, if it has no
-- negative encryption type and the file has a `usize` length, and then parses to the same keytab.
pub parse-to_bytes-parse :
    (host_little : Bool) (bytes : Bytes) (k : Keytab)
    → All IsByte bytes
    → parse host_little bytes ≡ ok k
    → All IsUnsigned k.entries
    → length (keytab_bytes host_little k) < 2 ^ 64
    → bind (to_bytes host_little k) (parse host_little) ≡ ok k
parse-to_bytes-parse host_little bytes k hb q u fits =
    let (known, valid) = parse-IsEntry host_little bytes hb q in
    parse-to_bytes host_little k
      (record { version_known = known; entries_valid = valid; file_fits = fits }) u

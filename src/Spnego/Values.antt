-- ===== src/Spnego/Values.antt =====
-- What the writers of src/spnego/der.rs write, its reader reads.
use rskrb.Prelude.{
  ℕ, zero, suc, ◌+◌, ◌*◌, ◌/◌, ◌%◌, ◌^◌, ◌≤◌, ◌<◌, ◌≡◌, ◌≢◌, refl, ◌∙◌, inl, inr, false, [], ◌∷◌,
  ◌++◌, append_assoc, append-nil, arith, ltb, length, All, length-append, drop-append, take-append,
  Bool-cases,
}
use rskrb.Result.{ok, bind}
use rskrb.Wire.{Bytes, big}
use rskrb.Wire.Range.{IsByte}
use rskrb.Wire.Numbers.{join32}
use rskrb.Der.{big_endian}
use rskrb.Spnego.Reader.{read_len, read_tlv, read_single_tlv, decode_u32, decode_arcs}
use rskrb.Spnego.Writer.{
  be_bytes, drop_zeros, encode_len, encode_tlv, encode_base128, base128_loop, encode_u32,
  strip_zeros,
}

-- Numbers of that many bytes.
abbrev pub range : ℕ → ℕ
range zero = 1
range (suc count) = range count * 256

big_endian-append :
    (acc : ℕ) (xs : Bytes) (b : ℕ) → big_endian acc (xs ++ (b ∷ [])) ≡ big_endian acc xs * 256 + b
unfolding big_endian
big_endian-append acc [] b = refl
big_endian-append acc (x ∷ xs) b = big_endian-append (acc * 256 + x) xs b

pub big_endian-be_bytes : (count n : ℕ) → n < range count → big_endian 0 (be_bytes count n) ≡ n
unfolding be_bytes
big_endian-be_bytes zero n h = unfold big_endian in omega arith
big_endian-be_bytes (suc count) n h =
    big_endian-append 0 (be_bytes count (n / 256)) (n % 256)
    ∙ omega (arith, big_endian-be_bytes count (n / 256) (omega arith))

big_endian-drop_zeros : (xs : Bytes) → big_endian 0 (drop_zeros xs) ≡ big_endian 0 xs
unfolding drop_zeros big_endian
big_endian-drop_zeros [] = refl
big_endian-drop_zeros (x ∷ xs) = ground (arith, big_endian-drop_zeros xs)

length-be_bytes : (count n : ℕ) → length (be_bytes count n) ≡ count
unfolding be_bytes
length-be_bytes zero n = refl
length-be_bytes (suc count) n = omega (
  arith,
  length-append (be_bytes count (n / 256)) (n % 256 ∷ []),
  length-be_bytes count (n / 256),
)

length-drop_zeros : (xs : Bytes) → length (drop_zeros xs) ≤ length xs
unfolding drop_zeros
length-drop_zeros [] = omega arith
length-drop_zeros (x ∷ xs) = ground (arith, length-drop_zeros xs)

drop_zeros_pos : (xs : Bytes) → 0 < big_endian 0 xs → 0 < length (drop_zeros xs)
unfolding drop_zeros big_endian
drop_zeros_pos [] h = h
drop_zeros_pos (x ∷ xs) h = ground (arith, drop_zeros_pos xs)

module _ {F : Type 0} where
  long_len :
      (digits rest : Bytes)
      → 0 < length digits
      → length digits ≤ 8
      → read_len {F = F} ((0x80 + length digits) ∷ (digits ++ rest))
        ≡ ok (big_endian 0 digits, rest)
  unfolding read_len
  long_len digits rest p q =
      let count : (0x80 + length digits) % 0x80 ≡ length digits = omega arith in
      rw (count, take-append digits rest, drop-append digits rest)
        (ground (arith, length-append digits rest))

  -- A length comes back, with the bytes behind it.
  pub read_len-encode_len :
      (len : ℕ) (rest : Bytes)
      → len < 2 ^ 64
      → read_len {F = F} (encode_len len ++ rest) ≡ ok (len, rest)
  unfolding encode_len
  read_len-encode_len len rest h = elim (Bool-cases (ltb len 128)) [
    | inl short ↦ rw short (unfold read_len in rw short refl)
    | inr long ↦
        let bytes = be_bytes 8 len in
        let whole : big_endian 0 bytes ≡ len = big_endian-be_bytes 8 len (omega arith) in
        let size = length-drop_zeros bytes in
        rw long (
          long_len (drop_zeros bytes) rest (drop_zeros_pos bytes (ground (arith, whole)))
            (omega (arith, size, length-be_bytes 8 len))
          ∙ rw (big_endian-drop_zeros bytes, whole) refl)
  ]

  -- One value, with the bytes behind it.
  pub read_tlv-encode_tlv :
      (tag : ℕ) (value rest : Bytes)
      → tag % 0x20 ≢ 0x1f
      → length value < 2 ^ 64
      → read_tlv {F = F} (encode_tlv tag value ++ rest)
        ≡ ok (record { tag = tag; value = value }, rest)
  unfolding read_tlv encode_tlv
  read_tlv-encode_tlv tag value rest low fits =
      rw
        (
          append_assoc (encode_len (length value)) value rest,
          read_len-encode_len (length value) (value ++ rest) fits,
          take-append value rest,
          drop-append value rest,
        )
        (ground (arith, length-append value rest))

  pub read_single_tlv-encode_tlv :
      (tag : ℕ) (value : Bytes)
      → tag % 0x20 ≢ 0x1f
      → length value < 2 ^ 64
      → read_single_tlv {F = F} (encode_tlv tag value) tag
        ≡ ok (record { tag = tag; value = value })
  unfolding read_single_tlv
  read_single_tlv-encode_tlv tag value low fits =
      rw (← append-nil (encode_tlv tag value))
        (rw (read_tlv-encode_tlv tag value [] low fits) (ground arith))

  -- A 32-bit number comes back.
  pub decode_u32-encode_u32 :
      (value : ℕ) → value < 2 ^ 32 → decode_u32 {F = F} (encode_u32 value) ≡ ok value
  unfolding decode_u32 encode_u32 strip_zeros
  decode_u32-encode_u32 value h = ground arith

  -- An integer of five bytes, the first below 0x80, is read without an error as the number of the last
  -- four: the first byte is lost.
  pub decode_u32-five :
      (first a b c d : ℕ)
      → first < 0x80
      → All IsByte (a ∷ b ∷ c ∷ d ∷ [])
      → decode_u32 {F = F} (first ∷ a ∷ b ∷ c ∷ d ∷ []) ≡ ok (join32 big (a ∷ b ∷ c ∷ d ∷ []))
  unfolding decode_u32
  decode_u32-five first a b c d low (ha, (hb, (hc, (hd, _)))) = ground arith

  pub decode_arcs-base128 :
      (value : ℕ) (rest : Bytes)
      → value < 2 ^ 32
      → decode_arcs {F = F} false 0 (encode_base128 value ++ rest)
        ≡ bind (decode_arcs {F = F} false 0 rest) (λ arcs. ok (value ∷ arcs))
  unfolding decode_arcs encode_base128 base128_loop
  decode_arcs-base128 value rest h = ground arith

-- A value and its header.
pub length-encode_tlv : (tag : ℕ) (value : Bytes) → length value + 2 ≤ length (encode_tlv tag value)
unfolding encode_tlv encode_len
length-encode_tlv tag value = elim (Bool-cases (ltb (length value) 128)) [
  | inl short ↦ rw short (omega arith)
  | inr long ↦ rw long (omega (arith, length-append (drop_zeros (be_bytes 8 (length value))) value))
]

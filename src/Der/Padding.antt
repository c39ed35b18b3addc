-- ===== src/Der/Padding.antt =====
-- What src/der.rs trims.
use rskrb.Prelude.{
  ℕ, zero, suc, ◌+◌, ◌<◌, ◌^◌, ◌≤◌, ◌≡◌, ◌≢◌, refl, ap, ◌%◌, true, false, [], ◌∷◌, ◌++◌, some,
  arith, length, take, drop, get_elem?, ◌==◌, length-append, drop-append, take-append, Bool-cases,
  Option-cases, inl, inr, ltb,
}
use rskrb.Wire.{Bytes}
use rskrb.Der.Format.{IsDer, top_level_der_end-IsDer}
use rskrb.Der.{tag_end, read_length, content_end, top_level_der_end, trim_zero_padded_der, all_zero}

get_elem?-append :
    (xs ys : Bytes) (i : ℕ) {b : ℕ} → get_elem? xs i ≡ some b → get_elem? (xs ++ ys) i ≡ some b
get_elem?-append [] ys i h = cc
get_elem?-append (x ∷ xs) ys zero h = h
get_elem?-append (x ∷ xs) ys (suc i) h = get_elem?-append xs ys i h

take-drop-append :
    (xs ys : Bytes) (start count : ℕ)
    → start + count ≤ length xs
    → take count (drop start (xs ++ ys)) ≡ take count (drop start xs)
take-drop-append [] ys zero zero h = refl
take-drop-append [] ys zero (suc count) h = absurd (omega (arith, h))
take-drop-append [] ys (suc start) count h = absurd (omega (arith, h))
take-drop-append (x ∷ xs) ys zero zero h = refl
take-drop-append (x ∷ xs) ys zero (suc count) h =
    ap (λ t. x ∷ t) (take-drop-append xs ys zero count (omega (arith, h)))
take-drop-append (x ∷ xs) ys (suc start) count h =
    take-drop-append xs ys start count (omega (arith, h))

-- More fuel and more bytes find the same end of the tag.
tag_end-append :
    (fuel fuel' : ℕ) (bytes rest : Bytes) (offset : ℕ) {o : ℕ}
    → fuel ≤ fuel'
    → tag_end fuel bytes offset ≡ some o
    → tag_end fuel' (bytes ++ rest) offset ≡ some o
unfolding tag_end
tag_end-append zero fuel' bytes rest offset le h = cc
tag_end-append (suc fuel) zero bytes rest offset le h = absurd (omega (arith, le))
tag_end-append (suc fuel) (suc fuel') bytes rest offset {o} le h =
    elim (Option-cases (get_elem? bytes offset)) [
      | inl e ↦ cc (rw (e, tag_end) at h)
      | inr (byte, e) ↦
          let h' = rw (e, tag_end) at h in
          rw (get_elem?-append bytes rest offset e, tag_end)
            (elim (Bool-cases (ltb byte 0x80)) [
              | inl m ↦ rw m (rw m at h')
              | inr m ↦ rw m (
                  tag_end-append fuel fuel' bytes rest (offset + 1) (omega (arith, le))
                    (rw m at h'))
            ])
    ]

read_length-append :
    (bytes rest : Bytes) (first offset : ℕ) {r : ℕ × ℕ}
    → read_length bytes first offset ≡ some r
    → read_length (bytes ++ rest) first offset ≡ some r
unfolding read_length
read_length-append bytes rest first offset h =
    ground (arith, h, take-drop-append bytes rest offset (first % 0x80), length-append bytes rest)

content_end-append :
    (bytes rest : Bytes) (offset : ℕ) {r : ℕ}
    → content_end bytes offset ≡ some r
    → content_end (bytes ++ rest) offset ≡ some r
unfolding content_end
content_end-append bytes rest offset h = elim (Option-cases (get_elem? bytes offset)) [
  | inl e ↦ cc (rw e at h)
  | inr (first, e) ↦
      let h' = rw e at h in
      rw (get_elem?-append bytes rest offset e)
        (elim (Option-cases (read_length bytes first (offset + 1))) [
          | inl e' ↦ cc (rw e' at h')
          | inr (l, e') ↦
              rw (read_length-append bytes rest first (offset + 1) e')
                (ground (arith, rw e' at h', length-append bytes rest))
        ])
]

-- Where the first value of the bytes ends does not depend on what follows them.
top_level_der_end-append :
    (bytes rest : Bytes) {r : ℕ}
    → top_level_der_end bytes ≡ some r
    → top_level_der_end (bytes ++ rest) ≡ some r
unfolding top_level_der_end
top_level_der_end-append [] rest h = cc
top_level_der_end-append (first ∷ bytes) rest {r} h = elim (Bool-cases (first % 0x20 == 0x1f)) [
  | inl m ↦
      let h' = rw m at h in
      rw m (elim (Option-cases (tag_end (length bytes + 1) (first ∷ bytes) 1)) [
        | inl e ↦ cc (rw e at h')
        | inr (o, e) ↦
            rw
              (tag_end-append (length bytes + 1) (length (bytes ++ rest) + 1) (first ∷ bytes) rest 1
                (omega (arith, length-append bytes rest)) e)
              (content_end-append (first ∷ bytes) rest o (rw e at h'))
      ])
  | inr m ↦ rw m (content_end-append (first ∷ bytes) rest 1 (rw m at h))
]

abbrev pub zeros : ℕ → Bytes
zeros zero = []
zeros (suc n) = 0 ∷ zeros n

all_zero-zeros : (n : ℕ) → all_zero (zeros n) ≡ true
all_zero-zeros zero = refl
all_zero-zeros (suc n) = all_zero-zeros n

all_zero-nonzero :
    (before : Bytes) (byte : ℕ) (behind : Bytes)
    → byte ≢ 0
    → all_zero (before ++ (byte ∷ behind)) ≡ false
all_zero-nonzero [] byte behind h = ground arith
all_zero-nonzero (b ∷ before) byte behind h = ground (arith, all_zero-nonzero before byte behind h)

-- One DER value, with an identifier and a length of either form, comes back from behind any number of
-- zeros of padding; with a byte behind it that is not zero, nothing is trimmed. The value has less than
-- 2^64 bytes, and a length of the long form at most eight.
pub trim_zero_padded_der-zeros :
    (der : Bytes) (n : ℕ) (before : Bytes) (byte : ℕ) (behind : Bytes)
    → IsDer der
    → length der < 2 ^ 64
    → byte ≢ 0
    → (trim_zero_padded_der (der ++ zeros n) ≡ der)
      × (trim_zero_padded_der (der ++ (before ++ (byte ∷ behind)))
          ≡ der ++ (before ++ (byte ∷ behind)))
unfolding trim_zero_padded_der
trim_zero_padded_der-zeros der n before byte behind h fits nonzero =
    let ended = top_level_der_end-IsDer der h fits in
    (
      rw
          (
            trim_zero_padded_der,
            top_level_der_end-append der (zeros n) ended,
            drop-append der (zeros n),
            all_zero-zeros n,
          )
          (take-append der (zeros n)),
      rw
          (
            trim_zero_padded_der,
            top_level_der_end-append der (before ++ (byte ∷ behind)) ended,
            drop-append der (before ++ (byte ∷ behind)),
            all_zero-nonzero before byte behind nonzero,
          )
          refl,
    )

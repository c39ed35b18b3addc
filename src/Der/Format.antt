-- ===== src/Der/Format.antt =====
-- A DER value as its octets, for src/der.rs, and where it ends.
use rskrb.Prelude.{
  ℕ, zero, suc, ◌+◌, ◌*◌, ◌%◌, ◌^◌, ◌≤◌, ◌<◌, ◌≡◌, ◌≢◌, ◌⊎◌, refl, ap, ◌∙◌, true, false, [], ◌∷◌,
  ◌++◌, some, inl, inr, arith, ltb, ◌==◌, length, get_elem?, length-append, append_assoc,
  drop-append, take-append,
}
use native.Mathlib.Nat.{add-mul, mul_assoc, pow-succ'}
use rskrb.Wire.{Bytes}
use rskrb.Der.{tag_end, big_endian, read_length, content_end, top_level_der_end}

-- The octets of a high tag number: the last one has no high bit, all others have it.
abbrev pub IsTagNumber : Bytes → Type 0
IsTagNumber [] = ⊥
IsTagNumber (octet ∷ []) = octet < 0x80
IsTagNumber (octet ∷ next ∷ octets) = (0x80 ≤ octet) × IsTagNumber (next ∷ octets)

-- A first octet of five ones at its end is followed by a tag number.
abbrev pub IsIdentifier : ℕ → Bytes → Type 0
IsIdentifier first number =
    ((first % 32 ≢ 31) × (number ≡ [])) ⊎ ((first % 32 ≡ 31) × IsTagNumber number)

-- The number with these base-256 digits, the first one the highest.
abbrev pub number_of : Bytes → ℕ
number_of [] = 0
number_of (octet ∷ octets) = octet * 256 ^ length octets + number_of octets

-- The length in one octet, or behind an octet with their count, which is at most 8 here.
abbrev pub IsLength : ℕ → Bytes → ℕ → Type 0
IsLength first digits n =
    ((n < 0x80) × (first ≡ n) × (digits ≡ []))
    ⊎ ((1 ≤ length digits)
        × (length digits ≤ 8)
        × (first ≡ 0x80 + length digits)
        × (number_of digits ≡ n))

-- One value: identifier, length and as many octets of contents.
pub record IsDer (der : Bytes) : Type 0 where
  pub first : ℕ
  pub number : Bytes
  pub length_octet : ℕ
  pub digits : Bytes
  pub contents : Bytes
  pub is_identifier : IsIdentifier first number
  pub is_length : IsLength length_octet digits (length contents)
  pub octets : der ≡ first ∷ (number ++ (length_octet ∷ (digits ++ contents)))

spread : (a b p : ℕ) → (a * 256 + b) * p ≡ a * (256 * p) + b * p
spread a b p = rw (add-mul (a * 256) b p, mul_assoc a 256 p) refl

big_endian-number_of :
    (acc : ℕ) (digits : Bytes)
    → big_endian acc digits ≡ acc * 256 ^ length digits + number_of digits
unfolding big_endian
big_endian-number_of acc [] = omega arith
big_endian-number_of acc (octet ∷ digits) =
    rw (big_endian, big_endian-number_of (acc * 256 + octet) digits, pow-succ' 256 (length digits))
      (omega (arith, spread acc octet (256 ^ length digits)))

get_elem?-middle : (xs ys : Bytes) (y : ℕ) → get_elem? (xs ++ (y ∷ ys)) (length xs) ≡ some y
get_elem?-middle [] ys y = refl
get_elem?-middle (x ∷ xs) ys y = get_elem?-middle xs ys y

-- The loop passes the octets of the number behind any others.
tag_end-number :
    (fuel : ℕ) (before number rest : Bytes)
    → length number ≤ fuel
    → IsTagNumber number
    → tag_end fuel (before ++ (number ++ rest)) (length before)
      ≡ some (length before + length number)
unfolding tag_end
tag_end-number fuel before [] rest h n = absurd n
tag_end-number zero before (octet ∷ number) rest h n = absurd (omega (arith, h))
tag_end-number (suc fuel) before (octet ∷ []) rest h n =
    let last : ltb octet 0x80 ≡ true = ground arith in
    rw (tag_end, get_elem?-middle before rest octet, last) refl
tag_end-number (suc fuel) before (octet ∷ next ∷ number) rest h (high, n) =
    let more : ltb octet 0x80 ≡ false = ground arith in
    let size : length (before ++ (octet ∷ [])) ≡ length before + 1 =
      omega (arith, length-append before (octet ∷ [])) in
    let later =
      tag_end-number fuel (before ++ (octet ∷ [])) (next ∷ number) rest (omega (arith, h)) n in
    rw (tag_end, get_elem?-middle before ((next ∷ number) ++ rest) octet, more)
      ((rw (append_assoc before (octet ∷ []) ((next ∷ number) ++ rest), size) at later)
        ∙ ap some (omega arith))

read_length-digits :
    (before : Bytes) (first : ℕ) (digits contents : Bytes)
    → IsLength first digits (length contents)
    → length (before ++ (digits ++ contents)) < 2 ^ 64
    → read_length (before ++ (digits ++ contents)) first (length before)
      ≡ some (length contents, length before + length digits)
unfolding read_length
read_length-digits before first digits contents (inl (small, e, no_digits)) fits =
    let short : ltb first 0x80 ≡ true = ground arith in
    rw (short, no_digits, e) (ap (λ o. some (length contents, o)) (omega arith))
read_length-digits before first digits contents (inr (present, few, e, n)) fits =
    let count : first % 0x80 ≡ length digits = omega arith in
    let read : big_endian 0 digits ≡ length contents =
      omega (arith, big_endian-number_of 0 digits, n) in
    let parts = length-append before (digits ++ contents) in
    let parts' = length-append digits contents in
    ground (arith, drop-append before (digits ++ contents), take-append digits contents)

content_end-length :
    (before : Bytes) (first : ℕ) (digits contents : Bytes)
    → IsLength first digits (length contents)
    → length (before ++ (first ∷ (digits ++ contents))) < 2 ^ 64
    → content_end (before ++ (first ∷ (digits ++ contents))) (length before)
      ≡ some (length (before ++ (first ∷ (digits ++ contents))))
unfolding content_end
content_end-length before first digits contents h fits =
    let all : ((before ++ (first ∷ [])) ++ (digits ++ contents))
        ≡ before ++ (first ∷ (digits ++ contents)) =
      append_assoc before (first ∷ []) (digits ++ contents) in
    let size : length (before ++ (first ∷ [])) ≡ length before + 1 =
      length-append before (first ∷ []) in
    let inside =
      read_length-digits (before ++ (first ∷ [])) first digits contents h (rw all fits) in
    let read = rw (all, size) at inside in
    let total = length-append before (first ∷ (digits ++ contents)) in
    let total' = length-append digits contents in
    rw (get_elem?-middle before (digits ++ contents) first, read) (ground arith)

octets_end :
    (first : ℕ) (number : Bytes) (length_octet : ℕ) (digits contents : Bytes)
    → IsIdentifier first number
    → IsLength length_octet digits (length contents)
    → length (first ∷ (number ++ (length_octet ∷ (digits ++ contents)))) < 2 ^ 64
    → top_level_der_end (first ∷ (number ++ (length_octet ∷ (digits ++ contents))))
      ≡ some (length (first ∷ (number ++ (length_octet ∷ (digits ++ contents)))))
unfolding top_level_der_end
octets_end first number length_octet digits contents (inl (low, e)) h fits =
    let low' : (first % 0x20 == 0x1f) ≡ false = ground arith in
    rw (low', e) (content_end-length (first ∷ []) length_octet digits contents h (rw e at fits))
octets_end first number length_octet digits contents (inr (high, n)) h fits =
    let rest = length_octet ∷ (digits ++ contents) in
    let high' : (first % 0x20 == 0x1f) ≡ true = ground arith in
    let fuel : length number ≤ length (number ++ rest) + 1 =
      omega (arith, length-append number rest) in
    let passed = tag_end-number (length (number ++ rest) + 1) (first ∷ []) number rest fuel n in
    let size : length (first ∷ number) ≡ 1 + length number = omega arith in
    let ended = content_end-length (first ∷ number) length_octet digits contents h fits in
    rw (high', passed) (rw size at ended)

-- The end that is computed is that of the value.
pub top_level_der_end-IsDer :
    (der : Bytes) → IsDer der → length der < 2 ^ 64 → top_level_der_end der ≡ some (length der)
unfolding top_level_der_end
top_level_der_end-IsDer der h fits = rw (h.octets) (
    octets_end h.first h.number h.length_octet h.digits h.contents h.is_identifier h.is_length
      (rw h.octets at fits))

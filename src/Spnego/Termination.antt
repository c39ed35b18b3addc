-- ===== src/Spnego/Termination.antt =====
-- The decoders of src/spnego.rs always end, and what their tokens hold.
use rskrb.Prelude.{
  ℕ, zero, suc, ◌+◌, ◌≤◌, ◌≡◌, refl, ◌%◌, ◌/◌, ◌||◌, ◌&&◌, Bool, true, false, List, [], ◌∷◌, arith,
  ltb, leb, ◌==◌, length, take, drop, not,
}
use rskrb.Result.{Result, ok, Ensures, holds, rejected, Ensures-bind, Ensures-if}
use rskrb.Wire.{Bytes}
use rskrb.Spnego.{Error, Tlv, tag_object_identifier}
use rskrb.Spnego.Reader.{
  read_len, read_tlv, read_single_tlv, finish, decode_arcs, decode_oid_value, decode_oid_tlv,
  decode_u32, push_bits,
}
use rskrb.Spnego.Oid.{from_arcs, validate_arcs}

length-drop_le : {A : Type 0} (n : ℕ) (xs : List A) → length (drop n xs) ≤ length xs
length-drop_le zero xs = omega arith
length-drop_le (suc n) [] = omega arith
length-drop_le (suc n) (x ∷ xs) = omega (arith, length-drop_le n xs)

length-take-drop :
    {A : Type 0} (n : ℕ) (xs : List A) → length (take n xs) + length (drop n xs) ≡ length xs
length-take-drop zero xs = omega arith
length-take-drop (suc n) [] = refl
length-take-drop (suc n) (x ∷ xs) = omega (arith, length-take-drop n xs)

-- A value, the bytes behind it and a header of two bytes at least.
abbrev pub Splits : Bytes → Tlv × Bytes → Type 0
Splits bytes (tlv, rest) = length tlv.value + length rest + 2 ≤ length bytes

abbrev IsBehind : Bytes → ℕ × Bytes → Type 0
IsBehind bytes (len, rest) = suc (length rest) ≤ length bytes

abbrev pub Ends : {F A : Type 0} → Result (Error F) A → Type 0
Ends {F} {A} r = Ensures (λ (_ : A). Unit {0}) r

Ensures-elim :
    {E A : Type 0} {P : A → Type 0} (b : Bool) {x y : Result E A}
    → Ensures P x
    → Ensures P y
    → Ensures P (elim b as (λ _. Result E A) [ true ↦ x | false ↦ y ])
Ensures-elim true hx hy = hx
Ensures-elim false hx hy = hy

module _ {F : Type 0} where
  read_len-Ensures : (bytes : Bytes) → Ensures (IsBehind bytes) (read_len {F = F} bytes)
  unfolding read_len
  read_len-Ensures [] = rejected
  read_len-Ensures (first ∷ rest) =
      Ensures-if (ltb first 0x80) (λ _. holds (omega arith))
        λ _.
          Ensures-if (first % 0x80 == 0) (λ _. rejected)
            λ _.
              Ensures-if (ltb 8 (first % 0x80) || ltb (length rest) (first % 0x80)) (λ _. rejected)
                λ _. holds (omega (arith, length-drop_le (first % 0x80) rest))

  pub read_tlv-Splits : (bytes : Bytes) → Ensures (Splits bytes) (read_tlv {F = F} bytes)
  unfolding read_tlv
  read_tlv-Splits [] = rejected
  read_tlv-Splits (tag ∷ rest) =
      Ensures-if (tag % 0x20 == 0x1f) (λ _. rejected)
        λ _. Ensures-bind _ (read_len-Ensures rest) λ (len, body) h.
          Ensures-if (ltb (length body) len) (λ _. rejected)
            λ _. holds (omega (arith, length-take-drop len body, h))

  pub finish-Ends : (bytes : Bytes) → Ends (finish {F = F} bytes)
  finish-Ends [] = holds tt
  finish-Ends (byte ∷ bytes) = rejected

  pub read_single_tlv-Ends :
      (bytes : Bytes) (tag : ℕ)
      → Ensures (λ (tlv : Tlv). length tlv.value ≤ length bytes) (read_single_tlv {F = F} bytes tag)
  unfolding read_single_tlv
  read_single_tlv-Ends bytes tag = Ensures-bind _ (read_tlv-Splits bytes) λ (tlv, rest) h.
      Ensures-bind _ (finish-Ends rest)
        λ _ _. Ensures-if (not (tlv.tag == tag)) (λ _. rejected) (λ _. holds (omega arith))

  decode_arcs-Ends :
      (inside : Bool) (arc : ℕ) (bytes : Bytes) → Ends (decode_arcs {F = F} inside arc bytes)
  unfolding decode_arcs
  decode_arcs-Ends true arc [] = rejected
  decode_arcs-Ends false arc [] = holds tt
  decode_arcs-Ends true arc (byte ∷ bytes) =
      Ensures-elim (ltb byte 0x80)
        (Ensures-bind (λ arcs. ok (push_bits arc byte ∷ arcs)) (decode_arcs-Ends false 0 bytes)
          (λ _ _. holds tt))
        (decode_arcs-Ends true (push_bits arc byte) bytes)
  decode_arcs-Ends false arc (byte ∷ bytes) =
      Ensures-elim (ltb byte 0x80)
        (Ensures-bind (λ arcs. ok (push_bits arc byte ∷ arcs)) (decode_arcs-Ends false 0 bytes)
          (λ _ _. holds tt))
        (decode_arcs-Ends true (push_bits arc byte) bytes)

  validate_arcs-Ends : (arcs : List ℕ) → Ends (validate_arcs {F = F} arcs)
  unfolding validate_arcs
  validate_arcs-Ends [] = rejected
  validate_arcs-Ends (first ∷ []) = rejected
  validate_arcs-Ends (first ∷ second ∷ arcs) =
      Ensures-if (ltb 2 first || (ltb first 2 && leb 40 second)) (λ _. rejected) (λ _. holds tt)

  from_arcs-Ends : (arcs : List ℕ) → Ends (from_arcs {F = F} arcs)
  unfolding from_arcs
  from_arcs-Ends arcs = Ensures-bind (λ _. ok arcs) (validate_arcs-Ends arcs) (λ _ _. holds tt)

  decode_oid_value-Ends : (bytes : Bytes) → Ends (decode_oid_value {F = F} bytes)
  unfolding decode_oid_value
  decode_oid_value-Ends [] = rejected
  decode_oid_value-Ends (first ∷ bytes) =
      Ensures-bind (λ arcs. from_arcs (first / 40 ∷ first % 40 ∷ arcs))
        (decode_arcs-Ends false 0 bytes) (λ arcs _. from_arcs-Ends (first / 40 ∷ first % 40 ∷ arcs))

  pub decode_oid_tlv-Ends : (tlv : Tlv) → Ends (decode_oid_tlv {F = F} tlv)
  unfolding decode_oid_tlv
  decode_oid_tlv-Ends tlv =
      Ensures-if (not (tlv.tag == tag_object_identifier)) (λ _. rejected)
        (λ _. decode_oid_value-Ends tlv.value)

  pub decode_u32-Ends : (bytes : Bytes) → Ends (decode_u32 {F = F} bytes)
  unfolding decode_u32
  decode_u32-Ends [] = rejected
  decode_u32-Ends (first ∷ rest) =
      Ensures-if (ltb 4 (length rest)) (λ _. rejected)
        λ _. Ensures-if (leb 0x80 first) (λ _. rejected) (λ _. holds tt)

-- ===== src/Wire/Numbers.antt =====
-- Numbers as two or four bytes, in both orders: what was split is put together again.
use rskrb.Prelude.{ℕ, ◌^◌, ◌<◌, ◌≡◌, refl, arith, ltb, get_or, length, ltb→lt, Bool-cases, inl, inr}
use rskrb.Prelude.Int.{ℤ, pos, negsuc}
use rskrb.Wire.{
  Bytes, Endian, big, little, from_bytes16, from_bytes32, to_bytes16, to_bytes32, signed16,
  signed32, pattern16, pattern32,
}

abbrev pub FitsI16 : ℤ → Type 0
FitsI16 (pos n) = n < 0x8000
FitsI16 (negsuc n) = n < 0x8000

abbrev pub FitsI32 : ℤ → Type 0
FitsI32 (pos n) = n < 0x80000000
FitsI32 (negsuc n) = n < 0x80000000

-- The number in a list of two, of four bytes.
abbrev pub join16 : Endian → Bytes → ℕ
join16 e raw = from_bytes16 e (get_or raw 0 0) (get_or raw 1 0)

abbrev pub join32 : Endian → Bytes → ℕ
join32 e raw = from_bytes32 e (get_or raw 0 0) (get_or raw 1 0) (get_or raw 2 0) (get_or raw 3 0)

pub join16-to_bytes16 : (e : Endian) (v : ℕ) → v < 0x10000 → join16 e (to_bytes16 e v) ≡ v
join16-to_bytes16 big v h = omega arith
join16-to_bytes16 little v h = omega arith

pub join32-to_bytes32 : (e : Endian) (v : ℕ) → v < 2 ^ 32 → join32 e (to_bytes32 e v) ≡ v
join32-to_bytes32 big v h = omega arith
join32-to_bytes32 little v h = omega arith

pub length-to_bytes16 : (e : Endian) (v : ℕ) → length (to_bytes16 e v) ≡ 2
length-to_bytes16 big v = refl
length-to_bytes16 little v = refl

pub length-to_bytes32 : (e : Endian) (v : ℕ) → length (to_bytes32 e v) ≡ 4
length-to_bytes32 big v = refl
length-to_bytes32 little v = refl

pub pattern16-lt : (v : ℤ) → FitsI16 v → pattern16 v < 0x10000
pattern16-lt (pos n) h = omega arith
pattern16-lt (negsuc n) h = omega arith

pub pattern32-lt : (v : ℤ) → FitsI32 v → pattern32 v < 2 ^ 32
pattern32-lt (pos n) h = omega arith
pattern32-lt (negsuc n) h = omega arith

pub signed16-pattern16 : (v : ℤ) → FitsI16 v → signed16 (pattern16 v) ≡ v
signed16-pattern16 (pos n) h = ground arith
signed16-pattern16 (negsuc n) h = ground arith

pub signed32-pattern32 : (v : ℤ) → FitsI32 v → signed32 (pattern32 v) ≡ v
signed32-pattern32 (pos n) h = ground arith
signed32-pattern32 (negsuc n) h = ground arith

pub signed16-Fits : (v : ℕ) → v < 0x10000 → FitsI16 (signed16 v)
signed16-Fits v h = elim (Bool-cases (ltb v 0x8000)) [
  | inl e ↦ rw e (ltb→lt v 0x8000 e)
  | inr e ↦ rw e (ground arith)
]

pub signed32-Fits : (v : ℕ) → v < 2 ^ 32 → FitsI32 (signed32 v)
signed32-Fits v h = elim (Bool-cases (ltb v 0x80000000)) [
  | inl e ↦ rw e (ltb→lt v 0x80000000 e)
  | inr e ↦ rw e (ground arith)
]

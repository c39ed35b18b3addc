-- ===== src/Prelude/Bits.antt =====
-- `^` and `|` on numbers, digit by digit.
use Prim.Native.Nat.{
  ℕ, zero, suc, ◌+◌, ◌*◌, ◌/◌, ◌%◌, ◌^◌, ◌≤◌, ◌<◌, max, digits, differ, bit_xor, bit_or,
  bit_xor-bitwise, bit_or-bitwise,
}
use mathlib.Core.Path.{◌≡◌, refl, sym, ◌∙◌}
use native.Mathlib.Nat.{pow-suc}
use native.Mathlib.Omega.{arith}

-- Two counts of digits that are not below the first number give the same result.
module _ (f : ℕ → ℕ → ℕ) where
  same_digits : (a b n m : ℕ) → a ≤ n → a ≤ m → digits (λ d. d) f n a b ≡ digits (λ d. d) f m a b
  same_digits a b zero zero p q = refl
  same_digits zero b zero (suc m) p q = refl
  same_digits zero b (suc n) zero p q = refl
  same_digits zero b (suc n) (suc m) p q = refl
  same_digits (suc a) b (suc n) (suc m) p q =
      omega (arith, same_digits (suc a / 2) (b / 2) n m (omega arith) (omega arith))
  same_digits (suc a) b (suc n) zero p q = absurd (omega arith)
  same_digits (suc a) b zero (suc m) p q = absurd (omega arith)

pub bit_xor-halves : (a b : ℕ) → bit_xor a b ≡ bit_xor (a / 2) (b / 2) * 2 + differ (a % 2) (b % 2)
bit_xor-halves zero b = simp bit_xor-bitwise (omega arith)
bit_xor-halves (suc a) b = simp bit_xor-bitwise (
    omega (arith, same_digits differ (suc a / 2) (b / 2) a (suc a / 2) (omega arith) (omega arith)))

pub bit_or-halves : (a b : ℕ) → bit_or a b ≡ bit_or (a / 2) (b / 2) * 2 + max (a % 2) (b % 2)
bit_or-halves zero b = simp bit_or-bitwise (omega arith)
bit_or-halves (suc a) b =
    simp bit_or-bitwise
      (omega (arith, same_digits max (suc a / 2) (b / 2) a (suc a / 2) (omega arith) (omega arith)))

differ_digits : (a b : ℕ) → a < 2 → b < 2 → differ a b ≡ (a + b) % 2
differ_digits zero b p q = omega arith
differ_digits (suc zero) zero p q = refl
differ_digits (suc zero) (suc zero) p q = refl
differ_digits a (suc (suc b)) p q = absurd (omega arith)
differ_digits (suc (suc a)) b p q = absurd (omega arith)

-- Digits as a sum.
pub bit_xor-digit : (a b : ℕ) → bit_xor a b ≡ bit_xor (a / 2) (b / 2) * 2 + (a % 2 + b % 2) % 2
bit_xor-digit a b =
    omega (arith, bit_xor-halves a b, differ_digits (a % 2) (b % 2) (omega arith) (omega arith))

cancel_fuel : (n a b : ℕ) → a ≤ n → b ≤ n → bit_xor (bit_xor a b) b ≡ a
cancel_fuel zero zero zero p q = refl
cancel_fuel zero (suc a) b p q = absurd (omega arith)
cancel_fuel zero a (suc b) p q = absurd (omega arith)
cancel_fuel (suc n) a b p q =
    let x = bit_xor a b in
    let half : x / 2 ≡ bit_xor (a / 2) (b / 2) = omega (arith, bit_xor-digit a b) in
    let digit : x % 2 ≡ (a % 2 + b % 2) % 2 = omega (arith, bit_xor-digit a b) in
    let rest : bit_xor (x / 2) (b / 2) ≡ a / 2 =
      rw half (cancel_fuel n (a / 2) (b / 2) (omega arith) (omega arith)) in
    omega (arith, bit_xor-digit x b, digit, rest)

-- A second `^` takes the first back.
pub bit_xor_cancel : (a b : ℕ) → bit_xor (bit_xor a b) b ≡ a
bit_xor_cancel a b = cancel_fuel (a + b) a b (omega arith) (omega arith)

self_fuel : (n a : ℕ) → a ≤ n → bit_xor a a ≡ 0
self_fuel zero zero p = refl
self_fuel zero (suc a) p = absurd (omega arith)
self_fuel (suc n) zero p = refl
self_fuel (suc n) (suc a) p =
    omega (arith, bit_xor-digit (suc a) (suc a), self_fuel n (suc a / 2) (omega arith))

pub bit_xor_self : (a : ℕ) → bit_xor a a ≡ 0
bit_xor_self a = self_fuel a a (omega arith)

pub zero_bit_xor : (b : ℕ) → bit_xor 0 b ≡ b
zero_bit_xor b = simp bit_xor-bitwise refl

pub bit_xor-eq-zero : (a b : ℕ) → bit_xor a b ≡ 0 → a ≡ b
bit_xor-eq-zero a b h = sym (bit_xor_cancel a b) ∙ rw h (zero_bit_xor b)

-- Bounds, one digit at a time.
below_fuel : (n a b : ℕ) → a < 2 ^ n → b < 2 ^ n → bit_xor a b < 2 ^ n
below_fuel zero zero zero p q = omega arith
below_fuel zero (suc a) b p q = absurd (omega arith)
below_fuel zero a (suc b) p q = absurd (omega arith)
below_fuel (suc n) a b p q = omega (
  arith,
  bit_xor-digit a b,
  pow-suc 2 n,
  below_fuel n (a / 2) (b / 2) (omega (arith, pow-suc 2 n)) (omega (arith, pow-suc 2 n)),
)

pub bit_xor_lt : (n a b : ℕ) → a < 2 ^ n → b < 2 ^ n → bit_xor a b < 2 ^ n
bit_xor_lt = below_fuel

pub bit_or_lt : (n a b : ℕ) → a < 2 ^ n → b < 2 ^ n → bit_or a b < 2 ^ n
bit_or_lt zero zero zero p q = omega arith
bit_or_lt zero (suc a) b p q = absurd (omega arith)
bit_or_lt zero a (suc b) p q = absurd (omega arith)
bit_or_lt (suc n) a b p q = omega (
  arith,
  bit_or-halves a b,
  pow-suc 2 n,
  bit_or_lt n (a / 2) (b / 2) (omega (arith, pow-suc 2 n)) (omega (arith, pow-suc 2 n)),
)

-- `|` is not below either number.
le_bit_or : (n a b : ℕ) → a ≤ n → b ≤ n → (a ≤ bit_or a b) × (b ≤ bit_or a b)
le_bit_or zero zero zero p q = omega arith
le_bit_or zero (suc a) b p q = absurd (omega arith)
le_bit_or zero a (suc b) p q = absurd (omega arith)
le_bit_or (suc n) a b p q =
    omega (arith, bit_or-halves a b, le_bit_or n (a / 2) (b / 2) (omega arith) (omega arith))

pub bit_or-eq-zero : (a b : ℕ) → bit_or a b ≡ 0 → (a ≡ 0) × (b ≡ 0)
bit_or-eq-zero a b h = omega (arith, le_bit_or (a + b) a b (omega arith) (omega arith))

zero_fuel : (n a : ℕ) → a ≤ n → bit_xor a 0 ≡ a
zero_fuel zero zero p = refl
zero_fuel zero (suc a) p = absurd (omega arith)
zero_fuel (suc n) zero p = refl
zero_fuel (suc n) (suc a) p =
    omega (arith, bit_xor-digit (suc a) 0, zero_fuel n (suc a / 2) (omega arith))

pub bit_xor_zero : (a : ℕ) → bit_xor a 0 ≡ a
bit_xor_zero a = zero_fuel a a (omega arith)

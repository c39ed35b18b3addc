-- ===== src/Gss/Comparison.antt =====
-- `constant_time_eq` of src/spnego.rs compares like `==`.
use Prim.Native.Nat.{bit_xor, bit_or}
use rskrb.Prelude.{ℕ, ◌≡◌, ◌↔◌, refl, true, [], ◌∷◌, length, arith}
use rskrb.Prelude.Bits.{bit_xor_self, bit_xor-eq-zero, bit_or-eq-zero}
use rskrb.Wire.{Bytes}
use rskrb.Gss.Mic.{fold_diff, constant_time_eq}

fold_diff-eq-zero :
    (diff : ℕ) (a b : Bytes) → length a ≡ length b → fold_diff diff a b ≡ 0 → (diff ≡ 0) × (a ≡ b)
fold_diff-eq-zero diff [] [] same h = (h, refl)
fold_diff-eq-zero diff [] (right ∷ b) same h = absurd (omega arith)
fold_diff-eq-zero diff (left ∷ a) [] same h = absurd (omega arith)
fold_diff-eq-zero diff (left ∷ a) (right ∷ b) same h =
    let (now, rest) = fold_diff-eq-zero (bit_or diff (bit_xor left right)) a b (omega arith) h in
    let (before, this) = bit_or-eq-zero diff (bit_xor left right) now in
    (before, cc (bit_xor-eq-zero left right this, rest))

fold_diff_self : (a : Bytes) → fold_diff 0 a a ≡ 0
fold_diff_self [] = refl
fold_diff_self (x ∷ a) = rw (bit_xor_self x) (fold_diff_self a)

-- The comparison in constant time says yes exactly for equal byte sequences.
pub constant_time_eq_iff : (a b : Bytes) → (constant_time_eq a b ≡ true) ↔ (a ≡ b)
unfolding constant_time_eq
constant_time_eq_iff a b = (
  λ h. (fold_diff-eq-zero 0 a b (ground arith) (ground arith)).1,
  λ e. rw e (ground (arith, fold_diff_self b)),
)

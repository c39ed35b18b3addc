-- ===== src/Crypto/Folding.antt =====
-- The n-fold of src/crypto.rs, bit by bit. The second addition of the carry has none: a sum with a
-- carry is not all ones.
use Prim.Native.Nat.{bit_or}
use rskrb.Prelude.{
  ℕ, zero, suc, ◌+◌, ◌-◌, ◌*◌, ◌/◌, ◌%◌, ◌^◌, ◌||◌, not, [], ◌∷◌, ◌++◌, ◌==◌, if◌then◌else◌, length,
  take, drop, get_or,
}
use rskrb.Result.{Result, ok, err}
use rskrb.Wire.{Bytes}
use rskrb.Crypto.{Error, empty_nfold_input, invalid_nfold_output_bits}
use rskrb.Gss.Wrap.{zeros}

abbrev pub get_bit : Bytes → ℕ → ℕ
get_bit bytes position = get_or bytes (position / 8) 0 / 2 ^ (7 - position % 8) % 2

-- `bytes[index] = f(bytes[index])`
abbrev pub modify : (ℕ → ℕ) → Bytes → ℕ → Bytes
modify f [] index = []
modify f (byte ∷ bytes) zero = f byte ∷ bytes
modify f (byte ∷ bytes) (suc index) = byte ∷ modify f bytes index

abbrev pub set_bit : Bytes → ℕ → ℕ → Bytes
set_bit bytes position value =
    modify (λ byte. bit_or byte (value * 2 ^ (7 - position % 8))) bytes (position / 8)

-- Euclid's loop: the second number gets smaller.
unfoldable pub gcd : ℕ → ℕ → ℕ → ℕ
gcd zero left right = left
gcd (suc fuel) left right =
    let next = gcd fuel right (left % right) in if right == 0 then left else next

abbrev pub lcm : ℕ → ℕ → ℕ
lcm left right = left * right / gcd (suc right) left right

abbrev pub rotate_bits_loop : ℕ → ℕ → Bytes → ℕ → Bytes → Bytes
rotate_bits_loop zero i bytes steps out = out
rotate_bits_loop (suc count) i bytes steps out =
    rotate_bits_loop count (i + 1) bytes steps
      (set_bit out ((i + steps) % (length bytes * 8)) (get_bit bytes i))

unfoldable pub rotate_bits : Bytes → ℕ → Bytes
rotate_bits bytes steps = rotate_bits_loop (length bytes * 8) 0 bytes steps (zeros (length bytes))

-- From the last bit to the first, with the carry. A sum of one or three sets the bit, and a sum of two
-- or three carries.
abbrev pub add_bits : ℕ → Bytes → Bytes → Bytes → ℕ → Bytes × ℕ
add_bits zero left right out carry = (out, carry)
add_bits (suc bit_index) left right out carry =
    let sum = get_bit left bit_index + get_bit right bit_index + carry in
    add_bits bit_index left right (if sum == 1 || sum == 3 then set_bit out bit_index 1 else out)
      (if sum == 2 || sum == 3 then 1 else 0)

abbrev pub with_carry : Bytes × ℕ → (Bytes → Bytes) → Bytes
with_carry (out, carry) again = if carry == 1 then again out else out

-- The array that holds the carry only.
abbrev pub carry_array : ℕ → Bytes
carry_array len = zeros (len - 1) ++ (1 ∷ [])

abbrev pub add_fuel : ℕ → Bytes → Bytes → Bytes
add_fuel zero left right = left
add_fuel (suc fuel) left right =
    with_carry (add_bits (length left * 8) left right (zeros (length left)) 0)
      (λ out. add_fuel fuel out (carry_array (length left)))

unfoldable pub ones_complement_addition : Bytes → Bytes → Bytes
ones_complement_addition left right = add_fuel 2 left right

-- The turned copies of the input, one after the other.
abbrev pub copies : ℕ → ℕ → Bytes → Bytes
copies zero i input = []
copies (suc count) i input = rotate_bits input (13 * i) ++ copies count (i + 1) input

abbrev pub fold_chunks : ℕ → ℕ → Bytes → Bytes → Bytes
fold_chunks zero size folded bytes = folded
fold_chunks (suc count) size folded bytes =
    fold_chunks count size (ones_complement_addition folded (take size bytes)) (drop size bytes)

unfoldable pub nfold : Bytes → ℕ → Result Error Bytes
unfolding rotate_bits ones_complement_addition gcd
nfold input output_bits =
    if length input == 0
    then err empty_nfold_input
    else if output_bits == 0 || not (output_bits % 8 == 0)
    then err (invalid_nfold_output_bits output_bits)
    else let input_bits = length input * 8 in
      let replicate = lcm output_bits input_bits / input_bits in
      let sum_bytes = copies replicate 0 input in
      let output_len = output_bits / 8 in
      ok (fold_chunks (length sum_bytes / output_len) output_len (zeros output_len) sum_bytes)

-- ===== src/Crypto/Des3Keys.antt =====
-- The keys of DES3 in src/crypto.rs, out of seed bytes. `& 0x01`, `|= 1` and `&= !1` are written by
-- division.
use Prim.Native.Nat.{bit_or, bit_xor}
use rskrb.Prelude.{
  ℕ, zero, suc, ◌+◌, ◌*◌, ◌/◌, ◌%◌, ◌^◌, Bool, false, not, ◌||◌, List, [], ◌∷◌, ◌++◌, ◌==◌,
  if◌then◌else◌, length, take, drop,
}
use rskrb.Prelude.Text.{text_eq}
use rskrb.Result.{Result, ok, err}
use rskrb.Wire.{Bytes}
use rskrb.Crypto.{Error, invalid_seed_length}
use rskrb.Crypto.Folding.{modify}

-- The ones among so many low digits.
abbrev pub count_ones : ℕ → ℕ → ℕ
count_ones zero n = 0
count_ones (suc digits) n = n % 2 + count_ones digits (n / 2)

unfoldable pub des3_calc_odd_parity : ℕ → ℕ × ℕ
des3_calc_odd_parity byte =
    (byte % 2, if count_ones 7 (byte / 2) % 2 == 0 then byte / 2 * 2 + 1 else byte / 2 * 2)

-- The loop over the seven bytes, with the byte of their lowest bits.
abbrev pub stretch_loop : ℕ → ℕ → Bytes → Bytes
stretch_loop idx last_byte [] = (des3_calc_odd_parity last_byte).1 ∷ []
stretch_loop idx last_byte (byte ∷ bytes) =
    (des3_calc_odd_parity byte).1
    ∷ stretch_loop (idx + 1)
        (if (des3_calc_odd_parity byte).0 == 0 then last_byte else bit_or last_byte (2 ^ (idx + 1)))
        bytes

unfoldable pub des3_stretch_56_bits : Bytes → Bytes
unfolding des3_calc_odd_parity
des3_stretch_56_bits bytes = stretch_loop 0 0 bytes

abbrev pub weak_keys : List Bytes
weak_keys =
    (0x01 ∷ 0x01 ∷ 0x01 ∷ 0x01 ∷ 0x01 ∷ 0x01 ∷ 0x01 ∷ 0x01 ∷ [])
    ∷ (0xfe ∷ 0xfe ∷ 0xfe ∷ 0xfe ∷ 0xfe ∷ 0xfe ∷ 0xfe ∷ 0xfe ∷ [])
    ∷ (0xe0 ∷ 0xe0 ∷ 0xe0 ∷ 0xe0 ∷ 0xf1 ∷ 0xf1 ∷ 0xf1 ∷ 0xf1 ∷ [])
    ∷ (0x1f ∷ 0x1f ∷ 0x1f ∷ 0x1f ∷ 0x0e ∷ 0x0e ∷ 0x0e ∷ 0x0e ∷ [])
    ∷ (0x01 ∷ 0x1f ∷ 0x01 ∷ 0x1f ∷ 0x01 ∷ 0x0e ∷ 0x01 ∷ 0x0e ∷ [])
    ∷ (0x1f ∷ 0x01 ∷ 0x1f ∷ 0x01 ∷ 0x0e ∷ 0x01 ∷ 0x0e ∷ 0x01 ∷ [])
    ∷ (0x01 ∷ 0xe0 ∷ 0x01 ∷ 0xe0 ∷ 0x01 ∷ 0xf1 ∷ 0x01 ∷ 0xf1 ∷ [])
    ∷ (0xe0 ∷ 0x01 ∷ 0xe0 ∷ 0x01 ∷ 0xf1 ∷ 0x01 ∷ 0xf1 ∷ 0x01 ∷ [])
    ∷ (0x01 ∷ 0xfe ∷ 0x01 ∷ 0xfe ∷ 0x01 ∷ 0xfe ∷ 0x01 ∷ 0xfe ∷ [])
    ∷ (0xfe ∷ 0x01 ∷ 0xfe ∷ 0x01 ∷ 0xfe ∷ 0x01 ∷ 0xfe ∷ 0x01 ∷ [])
    ∷ (0x1f ∷ 0xe0 ∷ 0x1f ∷ 0xe0 ∷ 0x0e ∷ 0xf1 ∷ 0x0e ∷ 0xf1 ∷ [])
    ∷ (0xe0 ∷ 0x1f ∷ 0xe0 ∷ 0x1f ∷ 0xf1 ∷ 0x0e ∷ 0xf1 ∷ 0x0e ∷ [])
    ∷ (0x1f ∷ 0xfe ∷ 0x1f ∷ 0xfe ∷ 0x0e ∷ 0xfe ∷ 0x0e ∷ 0xfe ∷ [])
    ∷ (0xfe ∷ 0x1f ∷ 0xfe ∷ 0x1f ∷ 0xfe ∷ 0x0e ∷ 0xfe ∷ 0x0e ∷ [])
    ∷ (0xe0 ∷ 0xfe ∷ 0xe0 ∷ 0xfe ∷ 0xf1 ∷ 0xfe ∷ 0xf1 ∷ 0xfe ∷ [])
    ∷ (0xfe ∷ 0xe0 ∷ 0xfe ∷ 0xe0 ∷ 0xfe ∷ 0xf1 ∷ 0xfe ∷ 0xf1 ∷ [])
    ∷ []

abbrev pub contains : List Bytes → Bytes → Bool
contains [] block = false
contains (weak ∷ keys) block = text_eq weak block || contains keys block

unfoldable pub des3_is_weak_key : Bytes → Bool
unfolding text_eq
des3_is_weak_key block = contains weak_keys block

unfoldable pub des3_fix_weak_key : Bytes → Bytes
unfolding des3_is_weak_key
des3_fix_weak_key block =
    if des3_is_weak_key block then modify (λ byte. bit_xor byte 0xf0) block 7 else block

-- A block for each seven bytes.
abbrev pub key_blocks : ℕ → Bytes → Bytes
key_blocks zero bytes = []
key_blocks (suc count) bytes =
    des3_fix_weak_key (des3_stretch_56_bits (take 7 bytes)) ++ key_blocks count (drop 7 bytes)

unfoldable pub des3_random_to_key : Bytes → Result Error Bytes
unfolding des3_fix_weak_key des3_stretch_56_bits
des3_random_to_key bytes =
    if not (length bytes == 21)
    then err (invalid_seed_length 21 (length bytes))
    else ok (key_blocks 3 bytes)

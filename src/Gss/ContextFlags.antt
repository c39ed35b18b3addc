-- ===== src/Gss/ContextFlags.antt =====
-- `authenticator_checksum` of src/spnego.rs.
use Prim.Native.Nat.{bit_or}
use rskrb.Prelude.{
  ℕ, ◌-◌, ◌%◌, ◌/◌, ◌^◌, ◌<◌, ◌≡◌, refl, Bool, false, ◌&&◌, ◌||◌, List, [], ◌∷◌, ◌++◌, ltb, ◌==◌,
  if◌then◌else◌, length, take, drop, get_or, arith, All, inl, inr, Bool-cases,
}
use rskrb.Prelude.Bits.{bit_or_lt}
use rskrb.Wire.{Bytes, little, from_bytes32, to_bytes32}
use rskrb.Gss.Wrap.{zeros}

abbrev pub context_flag_deleg : ℕ
context_flag_deleg = 1

-- A round of the loop.
unfoldable pub add_flag : Bytes → ℕ → Bytes
add_flag checksum flag =
    let resized =
      if flag == context_flag_deleg && ltb (length checksum) 28
      then checksum ++ zeros (28 - length checksum)
      else checksum in
    let current =
      from_bytes32 little (get_or resized 20 0) (get_or resized 21 0) (get_or resized 22 0)
        (get_or resized 23 0) in
    take 20 resized ++ (to_bytes32 little (bit_or current flag) ++ drop 24 resized)

abbrev pub add_flags : Bytes → List ℕ → Bytes
add_flags checksum [] = checksum
add_flags checksum (flag ∷ flags) = add_flags (add_flag checksum flag) flags

unfoldable pub authenticator_checksum : List ℕ → Bytes
unfolding add_flag
authenticator_checksum flags = add_flags (to_bytes32 little 16 ++ zeros 20) flags

-- All flags in one number, and whether delegation is one of them.
abbrev pub all_flags : ℕ → List ℕ → ℕ
all_flags current [] = current
all_flags current (flag ∷ flags) = all_flags (bit_or current flag) flags

abbrev pub has_deleg : Bool → List ℕ → Bool
has_deleg deleg [] = deleg
has_deleg deleg (flag ∷ flags) = has_deleg (deleg || flag == context_flag_deleg) flags

-- The checksum of RFC 4121 with no bindings: the length of the bindings, the bindings, the flags, and
-- room for delegation.
abbrev pub checksum_of : ℕ → Bool → Bytes
checksum_of current deleg =
    to_bytes32 little 16
    ++ (zeros 16 ++ (to_bytes32 little current ++ (if deleg then zeros 4 else [])))

add_flag-checksum_of :
    (current flag : ℕ) (deleg : Bool)
    → current < 2 ^ 32
    → add_flag (checksum_of current deleg) flag
      ≡ checksum_of (bit_or current flag) (deleg || flag == context_flag_deleg)
unfolding add_flag
add_flag-checksum_of current flag deleg h =
    let slot : from_bytes32 little (current % 256) (current / 256 % 256) (current / 65536 % 256)
          (current / 16777216 % 256)
        ≡ current =
      omega arith in
    elim (Bool-cases deleg) [
      | inl e ↦ elim (Bool-cases (flag == context_flag_deleg)) [
        | inl f ↦ rw (e, f, slot) refl
        | inr f ↦ rw (e, f, slot) refl
      ]
      | inr e ↦ elim (Bool-cases (flag == context_flag_deleg)) [
        | inl f ↦ rw (e, f, slot) refl
        | inr f ↦ rw (e, f, slot) refl
      ]
    ]

add_flags-checksum_of :
    (current : ℕ) (flags : List ℕ) (deleg : Bool)
    → current < 2 ^ 32
    → All (λ flag. flag < 2 ^ 32) flags
    → add_flags (checksum_of current deleg) flags
      ≡ checksum_of (all_flags current flags) (has_deleg deleg flags)
add_flags-checksum_of current [] deleg h hs = refl
add_flags-checksum_of current (flag ∷ flags) deleg h (h', hs) =
    rw (add_flag-checksum_of current flag deleg h) (
      add_flags-checksum_of (bit_or current flag) flags (deleg || flag == context_flag_deleg)
        (bit_or_lt 32 current flag h h') hs)

-- For flags of 32 bits the checksum is the length 16, sixteen zeros, the flags in one number, all little
-- endian, and four zeros more exactly if delegation is among the flags.
pub authenticator_checksum-checksum_of :
    (flags : List ℕ)
    → All (λ flag. flag < 2 ^ 32) flags
    → authenticator_checksum flags ≡ checksum_of (all_flags 0 flags) (has_deleg false flags)
unfolding authenticator_checksum
authenticator_checksum-checksum_of flags hs = add_flags-checksum_of 0 flags false (omega arith) hs

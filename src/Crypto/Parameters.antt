-- ===== src/Crypto/Parameters.antt =====
-- The parameters of string-to-key in src/crypto.rs, as texts. `hex_pair` is `high << 4 | low` on digits
-- below sixteen.
use rskrb.Prelude.{
  ℕ, ◌+◌, ◌-◌, ◌*◌, ◌/◌, ◌%◌, ◌^◌, ◌<◌, ◌≡◌, refl, zero, suc, ap, ◌&&◌, not, [], ◌∷◌, leb, ◌==◌,
  if◌then◌else◌, length, get_or, arith,
}
use rskrb.Prelude.Text.{codes}
use rskrb.Result.{Result, ok, err, bind}
use rskrb.Wire.{Bytes, big, from_bytes32, to_bytes32}
use rskrb.Crypto.{
  Error, invalid_s2k_params_length, invalid_s2k_params_hex, unsupported_iteration_count_zero,
}

unfoldable pub hex_value : ℕ → Result Error ℕ
hex_value byte =
    if leb 48 byte && leb byte 57
    then ok (byte - 48)
    else if leb 97 byte && leb byte 102
    then ok (byte - 97 + 10)
    else if leb 65 byte && leb byte 70
    then ok (byte - 65 + 10)
    else err (invalid_s2k_params_hex byte)

unfoldable pub hex_pair : ℕ → ℕ → Result Error ℕ
unfolding hex_value
hex_pair high low = bind (hex_value high) λ h. bind (hex_value low) λ l. ok (h * 16 + l)

unfoldable pub hex_encode : Bytes → Bytes
hex_encode [] = []
hex_encode (byte ∷ bytes) =
    get_or (codes "0123456789abcdef") (byte / 16) 0
    ∷ get_or (codes "0123456789abcdef") (byte % 16) 0
    ∷ hex_encode bytes

unfoldable pub iterations_to_s2kparams : ℕ → Bytes
unfolding hex_encode
iterations_to_s2kparams iterations = hex_encode (to_bytes32 big iterations)

-- The pairs of the eight digits.
abbrev pub hex_pairs : Bytes → Result Error Bytes
hex_pairs (high ∷ low ∷ digits) =
    bind (hex_pair high low) λ byte. bind (hex_pairs digits) λ bytes. ok (byte ∷ bytes)
hex_pairs _ = ok []

unfoldable pub s2kparams_to_iterations : Bytes → Result Error ℕ
unfolding hex_pair
s2kparams_to_iterations s2kparams =
    if not (length s2kparams == 8)
    then err (invalid_s2k_params_length (length s2kparams))
    else bind (hex_pairs s2kparams) λ bytes.
      let iterations =
        from_bytes32 big (get_or bytes 0 0) (get_or bytes 1 0) (get_or bytes 2 0)
          (get_or bytes 3 0) in
      if iterations == 0 then err unsupported_iteration_count_zero else ok iterations

hex_digit : (n : ℕ) → n < 16 → hex_value (get_or (codes "0123456789abcdef") n 0) ≡ ok n
unfolding hex_value
hex_digit zero h = refl
hex_digit (suc zero) h = refl
hex_digit (suc (suc zero)) h = refl
hex_digit (suc (suc (suc zero))) h = refl
hex_digit (suc (suc (suc (suc zero)))) h = refl
hex_digit (suc (suc (suc (suc (suc zero))))) h = refl
hex_digit (suc (suc (suc (suc (suc (suc zero)))))) h = refl
hex_digit (suc (suc (suc (suc (suc (suc (suc zero))))))) h = refl
hex_digit (suc (suc (suc (suc (suc (suc (suc (suc zero)))))))) h = refl
hex_digit (suc (suc (suc (suc (suc (suc (suc (suc (suc zero))))))))) h = refl
hex_digit (suc (suc (suc (suc (suc (suc (suc (suc (suc (suc zero)))))))))) h = refl
hex_digit (suc (suc (suc (suc (suc (suc (suc (suc (suc (suc (suc zero))))))))))) h = refl
hex_digit (suc (suc (suc (suc (suc (suc (suc (suc (suc (suc (suc (suc zero)))))))))))) h = refl
hex_digit (suc (suc (suc (suc (suc (suc (suc (suc (suc (suc (suc (suc (suc zero))))))))))))) h =
    refl
hex_digit (suc (suc (suc (suc (suc (suc (suc (suc (suc (suc (suc (suc (suc (suc zero))))))))))))))
      h =
    refl
hex_digit
      (suc (suc (suc (suc (suc (suc (suc (suc (suc (suc (suc (suc (suc (suc (suc zero)))))))))))))))
      h =
    refl
hex_digit
      (suc
        (suc (suc (suc (suc (suc (suc (suc (suc (suc (suc (suc (suc (suc (suc (suc n))))))))))))))))
      h =
    absurd (omega arith)

hex_pair-hex :
    (byte : ℕ)
    → byte < 256
    → hex_pair
        (get_or (codes "0123456789abcdef") (byte / 16) 0)
        (get_or (codes "0123456789abcdef") (byte % 16) 0)
      ≡ ok byte
unfolding hex_pair
hex_pair-hex byte h =
    rw (hex_digit (byte / 16) (omega arith), hex_digit (byte % 16) (omega arith))
      (ap ok (omega arith))

pub s2kparams_to_iterations-iterations_to_s2kparams :
    (iterations : ℕ)
    → 0 < iterations
    → iterations < 2 ^ 32
    → s2kparams_to_iterations (iterations_to_s2kparams iterations) ≡ ok iterations
unfolding s2kparams_to_iterations iterations_to_s2kparams hex_encode
s2kparams_to_iterations-iterations_to_s2kparams iterations p q =
    rw
      (
        hex_pair-hex (iterations / 0x1000000 % 256) (omega arith),
        hex_pair-hex (iterations / 0x10000 % 256) (omega arith),
        hex_pair-hex (iterations / 256 % 256) (omega arith),
        hex_pair-hex (iterations % 256) (omega arith),
      )
      (ground arith)

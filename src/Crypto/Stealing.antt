-- ===== src/Crypto/Stealing.antt =====
-- The two last blocks of the ciphertext stealing of src/crypto.rs.
use rskrb.Prelude.{
  ℕ, zero, suc, ◌+◌, ◌-◌, ◌*◌, ◌≤◌, ◌≡◌, refl, ap, List, [], ◌∷◌, ◌++◌, ◌==◌, if◌then◌else◌, length,
  take, drop, arith, length-drop, length-append, append-nil,
}
use rskrb.Prelude.Bits.{zero_bit_xor, bit_xor_zero}
use rskrb.Wire.{Bytes}
use rskrb.Gss.Wrap.{zeros}
use rskrb.Gss.Sealed.{length-zeros}
use rskrb.Crypto.{Algorithms}
use rskrb.Crypto.Modes.{
  xor_bytes, encrypt_chunks, decrypt_chunks, last_block, cbc_encrypt, cbc_decrypt,
}
use rskrb.Crypto.Cbc.{Inverts, length-xor_bytes}

take_all : {A : Type 0} (xs : List A) → take (length xs) xs ≡ xs
take_all [] = refl
take_all (x ∷ xs) = ap (λ t. x ∷ t) (take_all xs)

pub take_whole : {A : Type 0} (n : ℕ) (xs : List A) → length xs ≡ n → take n xs ≡ xs
take_whole n xs e = rw (← e) (take_all xs)

xor_bytes-zeros : (a : Bytes) (n : ℕ) → length a ≤ n → xor_bytes a (zeros n) ≡ a
xor_bytes-zeros [] n h = refl
xor_bytes-zeros (x ∷ a) zero h = absurd (omega arith)
xor_bytes-zeros (x ∷ a) (suc n) h = cc (bit_xor_zero x, xor_bytes-zeros a n (omega arith))

zeros-xor_bytes : (n : ℕ) (b : Bytes) → length b ≡ n → xor_bytes (zeros n) b ≡ b
zeros-xor_bytes zero [] h = refl
zeros-xor_bytes zero (y ∷ b) h = absurd (omega arith)
zeros-xor_bytes (suc n) [] h = absurd (omega arith)
zeros-xor_bytes (suc n) (y ∷ b) h = cc (zero_bit_xor y, zeros-xor_bytes n b (omega arith))

-- Where the padding stands, the other block shows.
drop-padded :
    (a : Bytes) (n : ℕ) (b : Bytes)
    → length b ≡ length a + n
    → drop (length a) (xor_bytes (a ++ zeros n) b) ≡ drop (length a) b
drop-padded [] n b h = zeros-xor_bytes n b (omega arith)
drop-padded (x ∷ a) n [] h = absurd (omega arith)
drop-padded (x ∷ a) n (y ∷ b) h = drop-padded a n b (omega arith)

module _ (algorithms : Algorithms) (key : Bytes)
    (h : Inverts (algorithms.encrypt_block key) (algorithms.decrypt_block key)) where
  encrypt_one :
      (iv block : Bytes)
      → length block ≡ 16
      → cbc_encrypt algorithms key iv block ≡ algorithms.encrypt_block key (xor_bytes block iv)
  unfolding cbc_encrypt encrypt_chunks
  encrypt_one iv block e = rw (e, take_whole 16 block e) (append-nil _)

  decrypt_one :
      (iv block : Bytes)
      → length block ≡ 16
      → cbc_decrypt algorithms key iv block ≡ xor_bytes (algorithms.decrypt_block key block) iv
  unfolding cbc_decrypt decrypt_chunks
  decrypt_one iv block e = rw (e, take_whole 16 block e) (append-nil _)

  -- Decrypting the stolen block shows the end of the other.
  pub pad-of_stolen :
      (short other : Bytes) (n : ℕ)
      → length short + n ≡ 16
      → length other ≡ 16
      → drop (length short) (
          cbc_decrypt algorithms key
            (zeros 16)
            (cbc_encrypt algorithms key other (short ++ zeros n)))
        ≡ drop (length short) other
  pad-of_stolen short other n size e =
      let plain = short ++ zeros n in
      let whole : length plain ≡ 16 =
        omega (arith, length-append short (zeros n), length-zeros n) in
      let mixed = xor_bytes plain other in
      let mixed_size : length mixed ≡ 16 =
        omega (arith, length-xor_bytes plain other (omega (arith, whole)), whole) in
      let (block_size, back) = h mixed mixed_size in
      rw
        (
          encrypt_one other plain whole,
          decrypt_one (zeros 16) (algorithms.encrypt_block key mixed) block_size,
          back,
          xor_bytes-zeros mixed 16 (omega (arith, mixed_size)),
        )
        (drop-padded short n other (omega arith))

  pub regular_lem :
      (regular : Bytes)
      → (if length regular == 0 then [] else cbc_encrypt algorithms key (zeros 16) regular)
        ≡ cbc_encrypt algorithms key (zeros 16) regular
  unfolding cbc_encrypt encrypt_chunks
  regular_lem [] = refl
  regular_lem (x ∷ regular) = ground arith

  pub regular_back_lem :
      (regular : Bytes)
      → (if length regular == 0 then [] else cbc_decrypt algorithms key (zeros 16) regular)
        ≡ cbc_decrypt algorithms key (zeros 16) regular
  unfolding cbc_decrypt decrypt_chunks
  regular_back_lem [] = refl
  regular_back_lem (x ∷ regular) = ground arith

pub length-last_block :
    (bytes : Bytes) (n : ℕ) → length bytes ≡ n * 16 → length (last_block 16 (zeros 16) bytes) ≡ 16
length-last_block [] n e = refl
length-last_block (x ∷ bytes) n e =
    let size : length (drop (length (x ∷ bytes) - 16) (x ∷ bytes)) ≡ 16 =
      omega (arith, length-drop (length (x ∷ bytes) - 16) (x ∷ bytes), e) in
    ground (arith, size)

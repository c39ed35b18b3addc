-- ===== src/Crypto/Cbc.antt =====
-- Cipher block chaining of src/crypto.rs: what is encrypted in whole blocks is decrypted.
use rskrb.Prelude.{
  ℕ, zero, suc, ◌*◌, ◌/◌, ◌≤◌, ◌≡◌, refl, ap, List, [], ◌∷◌, ◌++◌, length, take, drop, arith,
  length-take, length-drop, length-append, take-append, drop-append,
}
use rskrb.Prelude.Bits.{bit_xor_cancel}
use rskrb.Wire.{Bytes}
use rskrb.Crypto.{Algorithms}
use rskrb.Crypto.Modes.{xor_bytes, encrypt_chunks, decrypt_chunks, cbc_encrypt, cbc_decrypt}
use rskrb.Gss.Rotation.{take-drop}

pub length-xor_bytes : (a b : Bytes) → length a ≤ length b → length (xor_bytes a b) ≡ length a
length-xor_bytes [] b h = refl
length-xor_bytes (x ∷ a) [] h = absurd (omega arith)
length-xor_bytes (x ∷ a) (y ∷ b) h = ap suc (length-xor_bytes a b (omega arith))

pub xor_bytes_cancel : (a b : Bytes) → length a ≤ length b → xor_bytes (xor_bytes a b) b ≡ a
xor_bytes_cancel [] b h = refl
xor_bytes_cancel (x ∷ a) [] h = absurd (omega arith)
xor_bytes_cancel (x ∷ a) (y ∷ b) h = cc (bit_xor_cancel x y, xor_bytes_cancel a b (omega arith))

pub take-take_append :
    {A : Type 0} (n : ℕ) (xs ys : List A) → length xs ≡ n → take n (xs ++ ys) ≡ xs
take-take_append n xs ys e = rw (← e) (take-append xs ys)

pub drop-drop_append :
    {A : Type 0} (n : ℕ) (xs ys : List A) → length xs ≡ n → drop n (xs ++ ys) ≡ ys
drop-drop_append n xs ys e = rw (← e) (drop-append xs ys)

-- A block cipher that can be undone.
abbrev pub Inverts : (Bytes → Bytes) → (Bytes → Bytes) → Type 0
Inverts f g = (block : Bytes) → length block ≡ 16 → (length (f block) ≡ 16) × (g (f block) ≡ block)

module _ (f g : Bytes → Bytes) (h : Inverts f g) where
  -- The first block, as it is chained.
  chained_size :
      (previous bytes : Bytes)
      → length previous ≡ 16
      → 16 ≤ length bytes
      → length (xor_bytes (take 16 bytes) previous) ≡ 16
  chained_size previous bytes p q = omega (
    arith,
    length-xor_bytes (take 16 bytes) previous (omega (arith, length-take 16 bytes)),
    length-take 16 bytes,
  )

  length-encrypt_chunks :
      (count : ℕ) (previous bytes : Bytes)
      → length previous ≡ 16
      → count * 16 ≤ length bytes
      → length (encrypt_chunks 16 f count previous bytes) ≡ count * 16
  unfolding encrypt_chunks
  length-encrypt_chunks zero previous bytes p q = refl
  length-encrypt_chunks (suc count) previous bytes p q =
      let block = f (xor_bytes (take 16 bytes) previous) in
      let size =
        (h (xor_bytes (take 16 bytes) previous) (chained_size previous bytes p (omega arith))).0 in
      omega (
        arith,
        length-append block (encrypt_chunks 16 f count block (drop 16 bytes)),
        size,
        length-encrypt_chunks count block (drop 16 bytes) size
            (omega (arith, length-drop 16 bytes)),
      )

  decrypt_chunks-encrypt_chunks :
      (count : ℕ) (previous bytes : Bytes)
      → length previous ≡ 16
      → length bytes ≡ count * 16
      → decrypt_chunks 16 g count previous (encrypt_chunks 16 f count previous bytes) ≡ bytes
  unfolding encrypt_chunks decrypt_chunks
  decrypt_chunks-encrypt_chunks zero previous [] p q = refl
  decrypt_chunks-encrypt_chunks zero previous (x ∷ bytes) p q = absurd (omega arith)
  decrypt_chunks-encrypt_chunks (suc count) previous bytes p q =
      let plain = take 16 bytes in
      let chained = xor_bytes plain previous in
      let block = f chained in
      let (size, back) = h chained (chained_size previous bytes p (omega arith)) in
      let rest = encrypt_chunks 16 f count block (drop 16 bytes) in
      let again =
        decrypt_chunks-encrypt_chunks count block (drop 16 bytes) size
          (omega (arith, length-drop 16 bytes)) in
      rw
        (
          take-take_append 16 block rest size,
          drop-drop_append 16 block rest size,
          back,
          xor_bytes_cancel plain previous (omega (arith, length-take 16 bytes)),
          again,
        )
        (take-drop 16 bytes)

module _ (algorithms : Algorithms) (key : Bytes)
    (h : Inverts (algorithms.encrypt_block key) (algorithms.decrypt_block key)) where
  pub length-cbc_encrypt :
      (count : ℕ) (iv bytes : Bytes)
      → length iv ≡ 16
      → length bytes ≡ count * 16
      → length (cbc_encrypt algorithms key iv bytes) ≡ count * 16
  unfolding cbc_encrypt
  length-cbc_encrypt count iv bytes p q =
      let rounds : length bytes / 16 ≡ count = omega (arith, q) in
      rw rounds (
        length-encrypt_chunks (algorithms.encrypt_block key) (algorithms.decrypt_block key) h count
          iv bytes p (omega (arith, q)))

  pub cbc_decrypt-cbc_encrypt :
      (count : ℕ) (iv bytes : Bytes)
      → length iv ≡ 16
      → length bytes ≡ count * 16
      → cbc_decrypt algorithms key iv (cbc_encrypt algorithms key iv bytes) ≡ bytes
  unfolding cbc_encrypt cbc_decrypt
  cbc_decrypt-cbc_encrypt count iv bytes p q =
      let rounds : length bytes / 16 ≡ count = omega (arith, q) in
      let size =
        length-encrypt_chunks (algorithms.encrypt_block key) (algorithms.decrypt_block key) h count
          iv bytes p (omega (arith, q)) in
      let rounds' : count * 16 / 16 ≡ count = omega arith in
      rw (rounds, size, rounds')
        (decrypt_chunks-encrypt_chunks (algorithms.encrypt_block key) (algorithms.decrypt_block key)
          h count iv bytes p q)

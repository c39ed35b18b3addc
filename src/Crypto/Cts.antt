-- ===== src/Crypto/Cts.antt =====
-- What `aes_cts_encrypt` of src/crypto.rs writes, `aes_cts_decrypt` reads.
use rskrb.Prelude.{
  ℕ, suc, ◌+◌, ◌-◌, ◌*◌, ◌%◌, ◌<◌, ◌≡◌, refl, ap, List, [], ◌∷◌, ◌++◌, length, take, arith,
  length-take, length-append, take-append,
}
use rskrb.Wire.{Bytes}
use rskrb.Gss.Wrap.{zeros}
use rskrb.Gss.Sealed.{length-zeros}
use rskrb.Gss.Rotation.{take-drop}
use rskrb.Crypto.{Algorithms}
use rskrb.Crypto.Modes.{last_block, cbc_encrypt, steal_encrypt, steal_decrypt}
use rskrb.Crypto.Cbc.{
  Inverts, take-take_append, drop-drop_append, length-cbc_encrypt, cbc_decrypt-cbc_encrypt,
}
use rskrb.Crypto.Stealing.{pad-of_stolen, regular_lem, regular_back_lem, length-last_block}

take-past :
    {A : Type 0} (xs ys : List A) (k : ℕ) → take (length xs + k) (xs ++ ys) ≡ xs ++ take k ys
take-past [] ys k = let e : 0 + k ≡ k = omega arith in rw e refl
take-past (x ∷ xs) ys k =
    let e : suc (length xs) + k ≡ suc (length xs + k) = omega arith in
    rw e (ap (λ t. x ∷ t) (take-past xs ys k))

take-third :
    (a b k : ℕ) (xs ys zs : Bytes)
    → length xs ≡ a
    → length ys ≡ b
    → take (a + b + k) (xs ++ (ys ++ zs)) ≡ xs ++ (ys ++ take k zs)
take-third a b k xs ys zs p q =
    let e : a + b + k ≡ length xs + (length ys + k) = omega (arith, p, q) in
    rw (e, take-past xs (ys ++ zs) (length ys + k), take-past ys zs k) refl

-- A text in parts: whole blocks, one more, and a short one.
module _ (algorithms : Algorithms) (key : Bytes)
    (h : Inverts (algorithms.encrypt_block key) (algorithms.decrypt_block key)) (n : ℕ)
    (regular penultimate short : Bytes) (whole : length regular ≡ n * 16)
    (one : length penultimate ≡ 16) (some_bytes : 0 < length short)
    (few_bytes : length short < 16) where
  abbrev pub padding : Bytes
  padding = zeros (16 - length short)

  abbrev pub regular_cipher : Bytes
  regular_cipher = cbc_encrypt algorithms key (zeros 16) regular

  abbrev pub chained_iv : Bytes
  chained_iv = last_block 16 (zeros 16) regular_cipher

  abbrev pub penultimate_block : Bytes
  penultimate_block = cbc_encrypt algorithms key chained_iv penultimate

  abbrev pub stolen_block : Bytes
  stolen_block = cbc_encrypt algorithms key penultimate_block (short ++ padding)

  abbrev pub stolen : Bytes
  stolen = regular_cipher ++ (stolen_block ++ take (length short) penultimate_block)

  length-regular_cipher : length regular_cipher ≡ n * 16
  length-regular_cipher =
      length-cbc_encrypt algorithms key h n (zeros 16) regular (omega arith) whole

  length-chained_iv : length chained_iv ≡ 16
  length-chained_iv = length-last_block regular_cipher n length-regular_cipher

  length-penultimate_block : length penultimate_block ≡ 16
  length-penultimate_block =
      length-cbc_encrypt algorithms key h 1 chained_iv penultimate length-chained_iv
        (omega (arith, one))

  length-padded : length (short ++ padding) ≡ 16
  length-padded =
      omega (arith, length-append short padding, length-zeros (16 - length short), few_bytes)

  length-stolen_block : length stolen_block ≡ 16
  length-stolen_block =
      length-cbc_encrypt algorithms key h 1 penultimate_block (short ++ padding)
        length-penultimate_block (omega (arith, length-padded))

  pub length-stolen : length stolen ≡ n * 16 + 16 + length short
  length-stolen = omega (
    arith,
    length-append regular_cipher (stolen_block ++ take (length short) penultimate_block),
    length-append stolen_block (take (length short) penultimate_block),
    length-take (length short) penultimate_block,
    length-regular_cipher,
    length-stolen_block,
    length-penultimate_block,
    few_bytes,
  )

  pub steal_encrypt-stolen :
      steal_encrypt algorithms key
        (regular ++ (penultimate ++ (short ++ padding)))
        (n * 16 + 16 + length short)
      ≡ (stolen_block, stolen)
  unfolding steal_encrypt
  steal_encrypt-stolen =
      let padded = regular ++ (penultimate ++ (short ++ padding)) in
      let size : length padded - 32 ≡ n * 16 = omega (
        arith,
        length-append regular (penultimate ++ (short ++ padding)),
        length-append penultimate (short ++ padding),
        whole,
        one,
        length-padded,
      ) in
      rw
        (
          size,
          take-take_append (n * 16) regular (penultimate ++ (short ++ padding)) whole,
          drop-drop_append (n * 16) regular (penultimate ++ (short ++ padding)) whole,
          take-take_append 16 penultimate (short ++ padding) one,
          drop-drop_append 16 penultimate (short ++ padding) one,
          regular_lem algorithms key h regular,
        )
        (ap (λ (t : Bytes). (stolen_block, t))
          (take-third (n * 16) 16 (length short) regular_cipher stolen_block penultimate_block
            length-regular_cipher length-stolen_block))

  pub steal_decrypt-stolen : steal_decrypt algorithms key stolen ≡ regular ++ (penultimate ++ short)
  unfolding steal_decrypt
  steal_decrypt-stolen =
      let last_cipher = take (length short) penultimate_block in
      let tail = stolen_block ++ last_cipher in
      let rest : (n * 16 + 16 + length short) % 16 ≡ length short = omega (arith, few_bytes) in
      let start : n * 16 + 16 + length short - 16 - length short ≡ n * 16 = omega arith in
      rw
        (
          length-stolen,
          rest,
          start,
          take-take_append (n * 16) regular_cipher tail length-regular_cipher,
          drop-drop_append (n * 16) regular_cipher tail length-regular_cipher,
          take-take_append 16 stolen_block last_cipher length-stolen_block,
          drop-drop_append 16 stolen_block last_cipher length-stolen_block,
          regular_back_lem algorithms key h regular_cipher,
          pad-of_stolen algorithms key h short penultimate_block (16 - length short) (omega arith)
              length-penultimate_block,
          take-drop (length short) penultimate_block,
          cbc_decrypt-cbc_encrypt algorithms key h n (zeros 16) regular (omega arith) whole,
          cbc_decrypt-cbc_encrypt algorithms key h 1 chained_iv penultimate length-chained_iv
              (omega (arith, one)),
          cbc_decrypt-cbc_encrypt algorithms key h 1 penultimate_block (short ++ padding)
              length-penultimate_block (omega (arith, length-padded)),
          take-third (n * 16) 16 (length short) regular penultimate (short ++ padding) whole one,
          take-append short padding,
        )
        refl

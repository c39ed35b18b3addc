-- ===== src/Crypto/CtsRoundTrip.antt =====
-- `aes_cts_decrypt` of src/crypto.rs after `aes_cts_encrypt`, on a text of any size.
use mathlib.Core.Path.{subst}
use rskrb.Prelude.{
  ℕ, suc, ◌+◌, ◌-◌, ◌*◌, ◌/◌, ◌%◌, ◌≤◌, ◌<◌, ◌≡◌, ◌≢◌, refl, sym, ap, ◌∙◌, inl, inr, true, false,
  ◌++◌, ◌==◌, if◌then◌else◌, ltb, leb, length, take, drop, arith, length-take, length-drop,
  length-append, append_assoc, Bool-cases,
}
use rskrb.Result.{Result, ok, bind, bind-eq-ok}
use rskrb.Wire.{Bytes}
use rskrb.Gss.Wrap.{zeros}
use rskrb.Gss.Sealed.{length-zeros}
use rskrb.Gss.Rotation.{take-drop}
use rskrb.Crypto.{Error, Algorithms}
use rskrb.Crypto.Modes.{
  zero_pad, cbc_encrypt, swap_last_two_blocks, aes_cts_encrypt, aes_cts_decrypt,
}
use rskrb.Crypto.Cbc.{
  Inverts, take-take_append, drop-drop_append, length-cbc_encrypt, cbc_decrypt-cbc_encrypt,
}
use rskrb.Crypto.Cts.{length-stolen, steal_encrypt-stolen, steal_decrypt-stolen}

swap-parts :
    (xs ys zs : Bytes)
    → length ys ≡ 16
    → length zs ≡ 16
    → swap_last_two_blocks (xs ++ (ys ++ zs)) ≡ xs ++ (zs ++ ys)
unfolding swap_last_two_blocks
swap-parts xs ys zs p q =
    let start : length (xs ++ (ys ++ zs)) - 32 ≡ length xs =
      omega (arith, length-append xs (ys ++ zs), length-append ys zs, p, q) in
    rw
      (
        start,
        take-take_append (length xs) xs (ys ++ zs) refl,
        drop-drop_append (length xs) xs (ys ++ zs) refl,
        take-take_append 16 ys zs p,
        drop-drop_append 16 ys zs p,
      )
      refl

-- The blocks that are exchanged.
module _ (bytes : Bytes) (n : ℕ) (size : length bytes ≡ suc (suc n) * 16) where
  three_parts :
      (xs : Bytes) × (ys : Bytes) × (zs : Bytes) × (length ys ≡ 16)
      × (length zs ≡ 16)
      × (bytes ≡ xs ++ (ys ++ zs))
  three_parts =
      let rest = drop (n * 16) bytes in
      let long : length rest ≡ 32 = omega (arith, length-drop (n * 16) bytes, size) in
      (
        take (n * 16) bytes,
        take 16 rest,
        drop 16 rest,
        omega (arith, length-take 16 rest, long),
        omega (arith, length-drop 16 rest, long),
        sym (rw (take-drop 16 rest) (take-drop (n * 16) bytes)),
      )

  swap_twice : swap_last_two_blocks (swap_last_two_blocks bytes) ≡ bytes
  swap_twice =
      let (xs, ys, zs, p, q, e) = three_parts in
      rw (e, swap-parts xs ys zs p q, swap-parts xs zs ys q p) refl

  length-swap : length (swap_last_two_blocks bytes) ≡ suc (suc n) * 16
  length-swap =
      let (xs, ys, zs, p, q, e) = three_parts in
      rw (e, swap-parts xs ys zs p q)
        (omega (
          arith,
          size,
          ap length e,
          length-append xs (ys ++ zs),
          length-append xs (zs ++ ys),
          length-append ys zs,
          length-append zs ys,
        ))

module _ (algorithms : Algorithms) (key : Bytes)
    (h : Inverts (algorithms.encrypt_block key) (algorithms.decrypt_block key)) where
  -- Encrypted and decrypted.
  abbrev pub cts_twice : Bytes → Result Error Bytes
  cts_twice plaintext =
      bind (aes_cts_encrypt algorithms key plaintext)
        λ (_, ciphertext). aes_cts_decrypt algorithms key ciphertext

  one_block :
      (plaintext : Bytes)
      → 0 < length plaintext
      → length plaintext ≤ 16
      → cts_twice plaintext ≡ ok (zero_pad plaintext 16)
  unfolding aes_cts_encrypt aes_cts_decrypt
  one_block plaintext p q =
      let padded = zero_pad plaintext 16 in
      let size : length padded ≡ 1 * 16 =
        unfold zero_pad in
        ground (
          arith,
          length-append plaintext (zeros (16 - length plaintext % 16)),
          length-zeros (16 - length plaintext % 16),
        ) in
      let some_bytes : (length plaintext == 0) ≡ false = ground arith in
      let short : leb (length plaintext) 16 ≡ true = ground arith in
      rw
        (
          some_bytes,
          short,
          length-cbc_encrypt algorithms key h 1 (zeros 16) padded (omega arith) size,
          cbc_decrypt-cbc_encrypt algorithms key h 1 (zeros 16) padded (omega arith) size,
        )
        refl

  whole_blocks :
      (plaintext : Bytes) (n : ℕ)
      → length plaintext ≡ suc (suc n) * 16
      → cts_twice plaintext ≡ ok plaintext
  unfolding aes_cts_encrypt aes_cts_decrypt
  whole_blocks plaintext n size =
      let encrypted = cbc_encrypt algorithms key (zeros 16) plaintext in
      let encrypted_size =
        length-cbc_encrypt algorithms key h (suc (suc n)) (zeros 16) plaintext (omega arith) size in
      let some_bytes : (length plaintext == 0) ≡ false = ground arith in
      let long : leb (length plaintext) 16 ≡ false = ground arith in
      let blocks : (length plaintext % 16 == 0) ≡ true = ground arith in
      let enough : ltb (suc (suc n) * 16) 16 ≡ false = ground arith in
      let blocks' : (suc (suc n) * 16 % 16 == 0) ≡ true = ground arith in
      let long' : (suc (suc n) * 16 == 16) ≡ false = ground arith in
      rw
        (
          some_bytes,
          long,
          blocks,
          length-swap encrypted n encrypted_size,
          enough,
          blocks',
          long',
          swap_twice encrypted n encrypted_size,
          cbc_decrypt-cbc_encrypt algorithms key h (suc (suc n)) (zeros 16) plaintext (omega arith)
              size,
        )
        refl

  stolen_parts :
      (n : ℕ) (regular penultimate short : Bytes)
      → length regular ≡ n * 16
      → length penultimate ≡ 16
      → 0 < length short
      → length short < 16
      → cts_twice (regular ++ (penultimate ++ short)) ≡ ok (regular ++ (penultimate ++ short))
  unfolding aes_cts_encrypt aes_cts_decrypt zero_pad
  stolen_parts n regular penultimate short whole one some few =
      let plaintext = regular ++ (penultimate ++ short) in
      let r = length short in
      let size : length plaintext ≡ n * 16 + 16 + r = omega (
        arith,
        length-append regular (penultimate ++ short),
        length-append penultimate short,
        whole,
        one,
      ) in
      let rest : (n * 16 + 16 + r) % 16 ≡ r = omega (arith, few) in
      let some_bytes : (n * 16 + 16 + r == 0) ≡ false = ground arith in
      let long : leb (n * 16 + 16 + r) 16 ≡ false = ground arith in
      let blocks : (r == 0) ≡ false = ground arith in
      let enough : ltb (n * 16 + 16 + r) 16 ≡ false = ground arith in
      let padded : plaintext ++ zeros (16 - r)
          ≡ regular ++ (penultimate ++ (short ++ zeros (16 - r))) =
        rw
          (
            append_assoc regular (penultimate ++ short) (zeros (16 - r)),
            append_assoc penultimate short (zeros (16 - r)),
          )
          refl in
      rw
        (
          size,
          some_bytes,
          long,
          rest,
          blocks,
          padded,
          steal_encrypt-stolen algorithms key h n regular penultimate short whole one some few,
          length-stolen algorithms key h n regular penultimate short whole one some few,
          enough,
          rest,
          blocks,
          steal_decrypt-stolen algorithms key h n regular penultimate short whole one some few,
        )
        refl

  many_blocks : (plaintext : Bytes) → 16 < length plaintext → cts_twice plaintext ≡ ok plaintext
  many_blocks plaintext p = elim (Bool-cases (length plaintext % 16 == 0)) [
    | inl e ↦ whole_blocks plaintext (length plaintext / 16 - 2) (ground arith)
    | inr e ↦
        let n = length plaintext / 16 - 1 in
        let regular = take (n * 16) plaintext in
        let tail = drop (n * 16) plaintext in
        let tail_size = length-drop (n * 16) plaintext in
        let rest : length plaintext % 16 ≢ 0 = ground arith in
        subst (λ text. cts_twice text ≡ ok text)
          (rw (take-drop 16 tail) (take-drop (n * 16) plaintext))
          (stolen_parts n regular (take 16 tail) (drop 16 tail)
            (omega (arith, length-take (n * 16) plaintext, p))
            (omega (arith, length-take 16 tail, tail_size, p))
            (omega (arith, length-drop 16 tail, tail_size, rest, p))
            (omega (arith, length-drop 16 tail, tail_size, p)))
  ]

  -- A text that is not empty is encrypted and decrypted to itself, padded with zeros to a block if it is
  -- shorter than one. The block cipher can be undone on blocks of 16 bytes.
  pub aes_cts_decrypt-aes_cts_encrypt :
      (plaintext : Bytes)
      → 0 < length plaintext
      → cts_twice plaintext
        ≡ ok (if ltb (length plaintext) 16 then zero_pad plaintext 16 else plaintext)
  aes_cts_decrypt-aes_cts_encrypt plaintext p = elim (Bool-cases (leb (length plaintext) 16)) [
    | inl e ↦ one_block plaintext p (ground arith) ∙ unfold zero_pad in ground arith
    | inr e ↦ many_blocks plaintext (ground arith) ∙ ground arith
  ]

  -- A text of a block or more: what is written and that it is read.
  pub encrypted-text :
      (plaintext : Bytes)
      → 16 ≤ length plaintext
      → (iv : Bytes) × (ciphertext : Bytes) × (aes_cts_encrypt algorithms key plaintext
          ≡ ok (iv, ciphertext))
        × (aes_cts_decrypt algorithms key ciphertext ≡ ok plaintext)
  encrypted-text plaintext p =
      let long : ltb (length plaintext) 16 ≡ false = ground arith in
      let twice : cts_twice plaintext ≡ ok plaintext =
        aes_cts_decrypt-aes_cts_encrypt plaintext (omega arith) ∙ rw long refl in
      let ((iv, ciphertext), written, read) =
        bind-eq-ok (aes_cts_encrypt algorithms key plaintext)
          (λ (_, c). aes_cts_decrypt algorithms key c) twice in
      (iv, ciphertext, written, read)

-- ===== src/Crypto/Modes.antt =====
-- The modes of src/crypto.rs over a block cipher. A block is a list of as many bytes as the block
-- size; `chunks_exact` makes as many rounds as there are whole blocks.
use Prim.Native.Nat.{bit_xor}
use rskrb.Prelude.{
  ℕ, zero, suc, ◌-◌, ◌/◌, ◌%◌, [], ◌∷◌, ◌++◌, ltb, leb, ◌==◌, if◌then◌else◌, length, take, drop,
}
use rskrb.Result.{Result, ok, err}
use rskrb.Wire.{Bytes}
use rskrb.Crypto.{Error, Algorithms, ciphertext_too_short, empty_plaintext}
use rskrb.Gss.Wrap.{zeros}

-- `block[i] = chunk[i] ^ previous[i]`
abbrev pub xor_bytes : Bytes → Bytes → Bytes
xor_bytes [] _ = []
xor_bytes (a ∷ left) [] = []
xor_bytes (a ∷ left) (b ∷ right) = bit_xor a b ∷ xor_bytes left right

unfoldable pub zero_pad : Bytes → ℕ → Bytes
zero_pad bytes block_size =
    let remainder = length bytes % block_size in
    if remainder == 0 then bytes else bytes ++ zeros (block_size - remainder)

module _ (size : ℕ) (block_cipher : Bytes → Bytes) where
  unfoldable pub encrypt_chunks : ℕ → Bytes → Bytes → Bytes
  encrypt_chunks zero previous bytes = []
  encrypt_chunks (suc count) previous bytes =
      let block = block_cipher (xor_bytes (take size bytes) previous) in
      block ++ encrypt_chunks count block (drop size bytes)

  unfoldable pub decrypt_chunks : ℕ → Bytes → Bytes → Bytes
  decrypt_chunks zero previous bytes = []
  decrypt_chunks (suc count) previous bytes =
      let block = take size bytes in
      xor_bytes (block_cipher block) previous ++ decrypt_chunks count block (drop size bytes)

-- The last block of what a chain has written, or what it started from.
abbrev pub last_block : ℕ → Bytes → Bytes → Bytes
last_block size iv bytes = if length bytes == 0 then iv else drop (length bytes - size) bytes

-- The two blocks are exchanged byte by byte.
unfoldable pub swap_last_two_blocks : Bytes → Bytes
swap_last_two_blocks bytes =
    let start = length bytes - 32 in
    take start bytes ++ (drop 16 (drop start bytes) ++ take 16 (drop start bytes))

module _ (algorithms : Algorithms) (key : Bytes) where
  unfoldable pub cbc_encrypt : Bytes → Bytes → Bytes
  unfolding encrypt_chunks
  cbc_encrypt iv plaintext =
      encrypt_chunks 16 (algorithms.encrypt_block key) (length plaintext / 16) iv plaintext

  unfoldable pub cbc_decrypt : Bytes → Bytes → Bytes
  unfolding decrypt_chunks
  cbc_decrypt iv ciphertext =
      decrypt_chunks 16 (algorithms.decrypt_block key) (length ciphertext / 16) iv ciphertext

  -- The last block and what is left of the one before it.
  unfoldable pub steal_encrypt : Bytes → ℕ → Bytes × Bytes
  steal_encrypt padded original_len =
      let regular_len = length padded - 32 in
      let regular_plain = take regular_len padded in
      let penultimate_plain = take 16 (drop regular_len padded) in
      let last_plain = drop 16 (drop regular_len padded) in
      let regular_cipher =
        if length regular_plain == 0 then [] else cbc_encrypt (zeros 16) regular_plain in
      let chained_iv = last_block 16 (zeros 16) regular_cipher in
      let penultimate_block = cbc_encrypt chained_iv penultimate_plain in
      let last_block' = cbc_encrypt penultimate_block last_plain in
      (last_block', take original_len (regular_cipher ++ (last_block' ++ penultimate_block)))

  -- The next initial vector and the ciphertext.
  unfoldable pub aes_cts_encrypt : Bytes → Result Error (Bytes × Bytes)
  aes_cts_encrypt plaintext =
      if length plaintext == 0
      then err empty_plaintext
      else if leb (length plaintext) 16
      then (let encrypted = cbc_encrypt (zeros 16) (zero_pad plaintext 16) in
          ok (encrypted, encrypted))
      else if length plaintext % 16 == 0
      then (let encrypted = cbc_encrypt (zeros 16) plaintext in
          ok (drop (length encrypted - 16) encrypted, swap_last_two_blocks encrypted))
      else ok (steal_encrypt (zero_pad plaintext 16) (length plaintext))

  unfoldable pub steal_decrypt : Bytes → Bytes
  steal_decrypt ciphertext =
      let short_len = length ciphertext % 16 in
      let regular_len = length ciphertext - 16 - short_len in
      let regular_cipher = take regular_len ciphertext in
      let penultimate_cipher = take 16 (drop regular_len ciphertext) in
      let last_cipher = drop 16 (drop regular_len ciphertext) in
      let regular_plain =
        if length regular_cipher == 0 then [] else cbc_decrypt (zeros 16) regular_cipher in
      let chain_iv = last_block 16 (zeros 16) regular_cipher in
      let pad = cbc_decrypt (zeros 16) penultimate_cipher in
      let completed_last_cipher = last_cipher ++ drop short_len pad in
      let last_plain = cbc_decrypt chain_iv completed_last_cipher in
      let penultimate_plain = cbc_decrypt completed_last_cipher penultimate_cipher in
      take (length ciphertext) (regular_plain ++ (last_plain ++ penultimate_plain))

  unfoldable pub aes_cts_decrypt : Bytes → Result Error Bytes
  aes_cts_decrypt ciphertext =
      if ltb (length ciphertext) 16
      then err (ciphertext_too_short 16 (length ciphertext))
      else if length ciphertext % 16 == 0
      then (if length ciphertext == 16
          then ok (cbc_decrypt (zeros 16) ciphertext)
          else ok (cbc_decrypt (zeros 16) (swap_last_two_blocks ciphertext)))
      else ok (steal_decrypt ciphertext)

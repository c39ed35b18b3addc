-- ===== src/Tests/GssTokens.antt =====
-- MIC and wrap tokens at concrete inputs, over a cipher that puts its confounder in front.
use rskrb.Prelude.{
  ℕ, ◌+◌, ◌%◌, ◌<◌, ◌≡◌, ◌↔◌, refl, true, [], ◌∷◌, ◌++◌, none, some, length, drop, arith,
}
use rskrb.Prelude.Int.{pos}
use rskrb.Result.{ok}
use rskrb.Wire.{Bytes}
use rskrb.Keytab.{EncryptionKey}
use rskrb.Service.Messages.{sha1_aes256, from_etype_id}
use rskrb.Spnego.Writer.{be_bytes}
use rskrb.Gss.{Ciphers}
use rskrb.Gss.Mic.{checksum_header}
use rskrb.Gss.Wrap.{WrapToken}
use rskrb.Gss.MicRoundTrip.{mic_exchange, mic_exchange_iff}
use rskrb.Gss.Sealed.{sealed_exchange, sealed_exchange_lem, sealed_text}
use rskrb.Gss.ContextFlags.{
  authenticator_checksum, checksum_of, all_flags, authenticator_checksum-checksum_of,
}

abbrev total : Bytes → ℕ
total [] = 0
total (byte ∷ bytes) = byte + total bytes

abbrev ciphers : Ciphers ℕ
ciphers = record {
  checksum = λ etype key bytes usage. ok (total bytes % 256 ∷ []);
  encrypt_message_with_confounder =
      λ etype key plaintext usage confounder. ok (confounder ++ plaintext);
  decrypt_message = λ etype key ciphertext usage. ok (drop 2 ciphertext);
}

abbrev key : EncryptionKey
key = record { etype = pos 18; value = [] }

known : from_etype_id key.etype ≡ some sha1_aes256
unfolding from_etype_id
known = refl

mic_exchange_iff_example :
    (mic_exchange ciphers (1 ∷ []) (2 ∷ []) key ≡ ok true) ↔ (◌≡◌ {A = Bytes} (5 ∷ []) (4 ∷ []))
unfolding checksum_header be_bytes
mic_exchange_iff_example =
    mic_exchange_iff ciphers key sha1_aes256 (1 ∷ []) (2 ∷ []) (4 ∷ []) (5 ∷ []) known refl refl

abbrev fresh : WrapToken
fresh = record {
  flags = 4;
  ec = 3;
  rrc = 5;
  snd_seq_num = 9;
  payload = some (20 ∷ 21 ∷ []);
  checksum = none;
  encrypted_body = none;
}

some_text : 0 < length ((1 ∷ 2 ∷ []) ++ sealed_text fresh (20 ∷ 21 ∷ []))
some_text = omega arith

sealed_exchange_lem_example :
    sealed_exchange ciphers key sha1_aes256 24 fresh (1 ∷ 2 ∷ []) ≡ ok (20 ∷ 21 ∷ [])
sealed_exchange_lem_example =
    sealed_exchange_lem ciphers key sha1_aes256 24 fresh (20 ∷ 21 ∷ []) (1 ∷ 2 ∷ [])
      ((1 ∷ 2 ∷ []) ++ sealed_text fresh (20 ∷ 21 ∷ [])) (omega arith) refl refl known refl refl
      some_text

authenticator_checksum-checksum_of_example :
    authenticator_checksum (32 ∷ 1 ∷ 16 ∷ []) ≡ checksum_of (all_flags 0 (32 ∷ 1 ∷ 16 ∷ [])) true
authenticator_checksum-checksum_of_example =
    authenticator_checksum-checksum_of (32 ∷ 1 ∷ 16 ∷ []) (omega arith)

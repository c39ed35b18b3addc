-- ===== src/Gss/Mic.antt =====
-- `MicToken` of src/spnego.rs. `constant_time_eq` folds the differences of the bytes into one number.
use Prim.Native.Nat.{bit_xor, bit_or}
use rskrb.Prelude.{
  ℕ, Bool, true, false, not, [], ◌∷◌, ◌++◌, Option, none, some, ltb, ◌==◌, if◌then◌else◌, length,
  take, drop, get_or,
}
use rskrb.Prelude.Text.{text_eq}
use rskrb.Result.{Result, ok, err, bind, map_err}
use rskrb.Wire.{Bytes, ok_or}
use rskrb.Der.{big_endian}
use rskrb.Keytab.{EncryptionKey}
use rskrb.Service.Messages.{from_etype_id}
use rskrb.Spnego.{
  Error, gss_token_too_short, invalid_gss_filler, missing_gss_payload, missing_gss_checksum,
  gss_checksum_already_set, gss_checksum_mismatch, unsupported_etype, crypto,
}
use rskrb.Spnego.Writer.{be_bytes}
use rskrb.Gss.{
  Ciphers, tok_id_gss_mic, gss_mic_filler, gssapi_initiator_sign_usage, validate_gss_token_id,
  validate_gss_sender,
}

pub record MicToken : Type 0 where
  pub flags : ℕ
  pub snd_seq_num : ℕ
  pub payload : Option Bytes
  pub checksum : Option Bytes

-- `MicToken::new`
abbrev pub new_mic : ℕ → ℕ → MicToken
new_mic flags snd_seq_num = record {
  flags = flags;
  snd_seq_num = snd_seq_num;
  payload = none;
  checksum = none;
}

-- `MicToken::checksum_header`
unfoldable pub checksum_header : MicToken → Bytes
checksum_header token =
    tok_id_gss_mic ++ (token.flags ∷ (gss_mic_filler ++ be_bytes 8 token.snd_seq_num))

-- `MicToken::with_payload`
abbrev pub mic_with_payload : MicToken → Bytes → MicToken
mic_with_payload token payload = record token { payload = some payload }

-- The loop over the pairs.
abbrev pub fold_diff : ℕ → Bytes → Bytes → ℕ
fold_diff diff [] _ = diff
fold_diff diff (left ∷ a) [] = diff
fold_diff diff (left ∷ a) (right ∷ b) = fold_diff (bit_or diff (bit_xor left right)) a b

unfoldable pub constant_time_eq : Bytes → Bytes → Bool
constant_time_eq a b = if not (length a == length b) then false else fold_diff 0 a b == 0

abbrev pub is_some : {A : Type 0} → Option A → Bool
is_some none = false
is_some (some _) = true

module _ {F : Type 0} where
  -- `MicToken::decode`
  unfoldable pub decode_mic : Bytes → Bool → Result (Error F) MicToken
  unfolding big_endian
  decode_mic bytes expect_from_acceptor =
      if ltb (length bytes) 16
      then err (gss_token_too_short 16 (length bytes))
      else bind (validate_gss_token_id (take 2 bytes) tok_id_gss_mic) λ _.
        bind (validate_gss_sender (get_or bytes 2 0) expect_from_acceptor) λ _.
          if not (text_eq (take 5 (drop 3 bytes)) gss_mic_filler)
          then err invalid_gss_filler
          else ok (record {
            flags = get_or bytes 2 0;
            snd_seq_num = big_endian 0 (take 8 (drop 8 bytes));
            payload = none;
            checksum = some (drop 16 bytes);
          })

  -- `MicToken::encode`
  unfoldable pub encode_mic : MicToken → Result (Error F) Bytes
  encode_mic token =
      bind (ok_or token.checksum missing_gss_checksum)
        λ checksum. ok (checksum_header token ++ checksum)

  module _ (ciphers : Ciphers F) where
    -- `MicToken::compute_checksum`
    unfoldable pub compute_mic_checksum : MicToken → EncryptionKey → ℕ → Result (Error F) Bytes
    compute_mic_checksum token key key_usage =
        bind (ok_or token.payload missing_gss_payload) λ payload.
          bind (ok_or (from_etype_id key.etype) (unsupported_etype key.etype)) λ etype.
            map_err crypto
              (ciphers.checksum etype key.value (payload ++ checksum_header token) key_usage)

    -- `MicToken::set_checksum`
    unfoldable pub set_mic_checksum : MicToken → EncryptionKey → ℕ → Result (Error F) MicToken
    set_mic_checksum token key key_usage =
        if is_some token.checksum
        then err gss_checksum_already_set
        else bind (compute_mic_checksum token key key_usage)
            λ checksum. ok (record token { checksum = some checksum })

    -- `MicToken::verify`
    unfoldable pub verify_mic : MicToken → EncryptionKey → ℕ → Result (Error F) Bool
    verify_mic token key key_usage = bind (compute_mic_checksum token key key_usage) λ expected.
        bind (ok_or token.checksum missing_gss_checksum) λ actual.
          if not (constant_time_eq expected actual) then err gss_checksum_mismatch else ok true

    -- `MicToken::new_initiator`
    unfoldable pub new_initiator_mic : Bytes → EncryptionKey → Result (Error F) MicToken
    new_initiator_mic payload key =
        set_mic_checksum (mic_with_payload (new_mic 0 0) payload) key gssapi_initiator_sign_usage

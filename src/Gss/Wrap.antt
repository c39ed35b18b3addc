-- ===== src/Gss/Wrap.antt =====
-- `WrapToken` of src/spnego.rs. The confounder of `new_initiator_sealed` is random: the model starts
-- at `new_initiator_sealed_with_confounder`.
use rskrb.Prelude.{
  ℕ, zero, suc, ◌+◌, ◌-◌, ◌%◌, Bool, true, not, [], ◌∷◌, ◌++◌, Option, none, some, ltb, ◌==◌,
  if◌then◌else◌, length, take, drop, get_or,
}
use rskrb.Prelude.Text.{text_eq}
use rskrb.Result.{Result, ok, err, bind, map_err}
use rskrb.Wire.{Bytes, big, from_bytes16, ok_or}
use rskrb.Der.{big_endian}
use rskrb.Keytab.{EncryptionKey}
use rskrb.Service.Messages.{from_etype_id}
use rskrb.Spnego.{
  Error, gss_token_too_short, invalid_gss_filler, missing_gss_payload, missing_gss_checksum,
  gss_checksum_already_set, gss_checksum_mismatch, missing_gss_encrypted_body,
  gss_encrypted_body_already_set, sealed_gss_token_needs_encryption, gss_token_not_sealed,
  invalid_gss_checksum_length, inconsistent_wrap_checksum_length, gss_decrypted_token_too_short,
  invalid_gss_encrypted_header, unsupported_etype, crypto,
}
use rskrb.Gss.{
  Ciphers, hmac_len, tok_id_gss_wrap, gss_wrap_filler, gss_token_flag_sealed,
  gssapi_initiator_seal_usage, has_sealed, wrap_header, validate_gss_token_id, validate_gss_sender,
}
use rskrb.Gss.Mic.{constant_time_eq, is_some}

pub record WrapToken : Type 0 where
  pub flags : ℕ
  pub ec : ℕ
  pub rrc : ℕ
  pub snd_seq_num : ℕ
  pub payload : Option Bytes
  pub checksum : Option Bytes
  pub encrypted_body : Option Bytes

-- `WrapToken::new`
abbrev pub new_wrap : ℕ → ℕ → WrapToken
new_wrap flags snd_seq_num = record {
  flags = flags;
  ec = 0;
  rrc = 0;
  snd_seq_num = snd_seq_num;
  payload = none;
  checksum = none;
  encrypted_body = none;
}

-- `WrapToken::with_payload`
abbrev pub wrap_with_payload : WrapToken → Bytes → WrapToken
wrap_with_payload token payload = record token { payload = some payload }

abbrev pub is_sealed : WrapToken → Bool
is_sealed token = has_sealed token.flags

-- `flags |= GSS_TOKEN_FLAG_SEALED`
abbrev pub seal : ℕ → ℕ
seal flags = if has_sealed flags then flags else flags + gss_token_flag_sealed

-- `WrapToken::header`
abbrev pub header : WrapToken → ℕ → Bytes
header token rrc = wrap_header token.flags token.ec rrc token.snd_seq_num

abbrev pub wrap_checksum_header : ℕ → ℕ → Bytes
wrap_checksum_header flags snd_seq_num = wrap_header flags 0 0 snd_seq_num

unfoldable pub rotate_right : Bytes → ℕ → Bytes
rotate_right bytes count =
    if length bytes == 0
    then []
    else let count' = count % length bytes in
      if count' == 0
      then bytes
      else drop (length bytes - count') bytes ++ take (length bytes - count') bytes

unfoldable pub rotate_left : Bytes → ℕ → Bytes
rotate_left bytes count =
    if length bytes == 0
    then []
    else let count' = count % length bytes in
      if count' == 0 then bytes else drop count' bytes ++ take count' bytes

-- `Vec::resize` with zeros, as far as it grows.
abbrev pub zeros : ℕ → Bytes
zeros zero = []
zeros (suc count) = 0 ∷ zeros count

-- A token that was read from its header.
abbrev pub decoded_wrap : Bytes → Option Bytes → Option Bytes → Option Bytes → WrapToken
decoded_wrap bytes payload checksum encrypted_body = record {
  flags = get_or bytes 2 0;
  ec = from_bytes16 big (get_or bytes 4 0) (get_or bytes 5 0);
  rrc = from_bytes16 big (get_or bytes 6 0) (get_or bytes 7 0);
  snd_seq_num = big_endian 0 (take 8 (drop 8 bytes));
  payload = payload;
  checksum = checksum;
  encrypted_body = encrypted_body;
}

module _ {F : Type 0} where
  abbrev pub decode_sealed : Bytes → Bytes → Result (Error F) WrapToken
  decode_sealed bytes [] = err missing_gss_encrypted_body
  decode_sealed bytes (byte ∷ body) = ok (decoded_wrap bytes none none (some (byte ∷ body)))

  abbrev pub decode_unsealed : Bytes → ℕ → Result (Error F) WrapToken
  decode_unsealed bytes checksum_len =
      if ltb (length bytes - 16) checksum_len
      then err (inconsistent_wrap_checksum_length (length bytes) checksum_len)
      else let checksum_start = length bytes - checksum_len in
        ok (
          decoded_wrap bytes (some (take (checksum_start - 16) (drop 16 bytes)))
            (some (drop checksum_start bytes)) none)

  -- `WrapToken::decode`
  unfoldable pub decode_wrap : Bytes → Bool → Result (Error F) WrapToken
  unfolding big_endian
  decode_wrap bytes expect_from_acceptor =
      if ltb (length bytes) 16
      then err (gss_token_too_short 16 (length bytes))
      else bind (validate_gss_token_id (take 2 bytes) tok_id_gss_wrap) λ _.
        bind (validate_gss_sender (get_or bytes 2 0) expect_from_acceptor) λ _.
          if not (get_or bytes 3 0 == gss_wrap_filler)
          then err invalid_gss_filler
          else if has_sealed (get_or bytes 2 0)
          then decode_sealed bytes (drop 16 bytes)
          else decode_unsealed bytes (from_bytes16 big (get_or bytes 4 0) (get_or bytes 5 0))

  -- `WrapToken::encode`
  unfoldable pub encode_wrap : WrapToken → Result (Error F) Bytes
  encode_wrap token =
      if is_sealed token
      then (bind (ok_or token.encrypted_body missing_gss_encrypted_body)
          λ encrypted_body. ok (header token token.rrc ++ encrypted_body))
      else (bind (ok_or token.payload missing_gss_payload) λ payload.
          bind (ok_or token.checksum missing_gss_checksum) λ checksum.
            if not (length checksum == token.ec)
            then err (invalid_gss_checksum_length token.ec (length checksum))
            else ok (header token token.rrc ++ (payload ++ checksum)))

  -- `u16::try_from(len)` for a length of a checksum.
  abbrev pub checked_len : ℕ → Result (Error F) ℕ
  checked_len len = if ltb len 0x10000 then ok len else err (invalid_gss_checksum_length 0xffff len)

  module _ (ciphers : Ciphers F) where
    -- `WrapToken::compute_checksum`
    unfoldable pub compute_wrap_checksum : WrapToken → EncryptionKey → ℕ → Result (Error F) Bytes
    compute_wrap_checksum token key key_usage =
        bind (ok_or token.payload missing_gss_payload) λ payload.
          bind (ok_or (from_etype_id key.etype) (unsupported_etype key.etype)) λ etype.
            map_err crypto (
              ciphers.checksum etype key.value
                (payload ++ wrap_checksum_header token.flags token.snd_seq_num) key_usage)

    -- `WrapToken::set_checksum`
    unfoldable pub set_wrap_checksum : WrapToken → EncryptionKey → ℕ → Result (Error F) WrapToken
    set_wrap_checksum token key key_usage =
        if is_some token.checksum
        then err gss_checksum_already_set
        else if is_sealed token
        then err sealed_gss_token_needs_encryption
        else bind (compute_wrap_checksum token key key_usage) λ checksum.
          bind (if token.ec == 0 then checked_len (length checksum) else ok token.ec)
            λ ec. ok (record token { ec = ec; checksum = some checksum })

    -- `WrapToken::decrypt_payload`
    unfoldable pub decrypt_payload : WrapToken → EncryptionKey → ℕ → Result (Error F) Bytes
    decrypt_payload token key key_usage =
        if not (is_sealed token)
        then err gss_token_not_sealed
        else bind (ok_or token.encrypted_body missing_gss_encrypted_body) λ encrypted_body.
          bind (ok_or (from_etype_id key.etype) (unsupported_etype key.etype)) λ etype.
            bind
              (map_err crypto (
                ciphers.decrypt_message etype key.value (rotate_left encrypted_body token.rrc)
                  key_usage))
              λ plaintext.
                let trailer_len = 16 + token.ec in
                if ltb (length plaintext) trailer_len
                then err (gss_decrypted_token_too_short trailer_len (length plaintext))
                else if not (text_eq (drop (length plaintext - 16) plaintext) (header token 0))
                then err invalid_gss_encrypted_header
                else ok (take (length plaintext - trailer_len) plaintext)

    -- `WrapToken::decrypt_and_set_payload`
    unfoldable pub decrypt_and_set_payload :
        WrapToken → EncryptionKey → ℕ → Result (Error F) WrapToken
    decrypt_and_set_payload token key key_usage =
        bind (decrypt_payload token key key_usage)
          λ payload. ok (record token { payload = some payload })

    -- `WrapToken::verify`
    unfoldable pub verify_wrap : WrapToken → EncryptionKey → ℕ → Result (Error F) Bool
    verify_wrap token key key_usage =
        if is_sealed token
        then (bind (decrypt_payload token key key_usage) λ _. ok true)
        else bind (compute_wrap_checksum token key key_usage) λ expected.
          bind (ok_or token.checksum missing_gss_checksum) λ actual.
            if not (constant_time_eq expected actual) then err gss_checksum_mismatch else ok true

    -- `WrapToken::new_initiator`
    unfoldable pub new_initiator_wrap : Bytes → EncryptionKey → Result (Error F) WrapToken
    new_initiator_wrap payload key =
        bind (ok_or (from_etype_id key.etype) (unsupported_etype key.etype)) λ etype.
          bind (checked_len (hmac_len etype)) λ ec.
            set_wrap_checksum (record (wrap_with_payload (new_wrap 0 0) payload) { ec = ec }) key
              gssapi_initiator_seal_usage

    -- `WrapToken::encrypt_payload_with_confounder`. The token that a failed call leaves, with the flag
    -- set, is not returned.
    unfoldable pub encrypt_payload_with_confounder :
        WrapToken → EncryptionKey → ℕ → Bytes → Result (Error F) WrapToken
    encrypt_payload_with_confounder token key key_usage confounder =
        if is_some token.encrypted_body
        then err gss_encrypted_body_already_set
        else let sealed = record token { flags = seal token.flags } in
          bind (ok_or token.payload missing_gss_payload) λ payload.
            bind (ok_or (from_etype_id key.etype) (unsupported_etype key.etype)) λ etype.
              bind
                (map_err crypto (
                  ciphers.encrypt_message_with_confounder etype key.value
                    (payload ++ (zeros token.ec ++ header sealed 0)) key_usage confounder))
                λ encrypted. ok (record sealed {
                  checksum = none;
                  encrypted_body = some (rotate_right encrypted token.rrc);
                })

    -- `WrapToken::new_initiator_sealed_with_confounder`
    unfoldable pub new_initiator_sealed_with_confounder :
        Bytes → EncryptionKey → Bytes → Result (Error F) WrapToken
    new_initiator_sealed_with_confounder payload key confounder =
        encrypt_payload_with_confounder
          (wrap_with_payload (new_wrap gss_token_flag_sealed 0) payload) key
          gssapi_initiator_seal_usage confounder

-- ===== src/Gss/WrapRoundTrip.antt =====
-- `WrapToken` of src/spnego.rs as bytes and back.
use rskrb.Prelude.{
  ℕ, zero, suc, ap, sym, ==_iff, ◌+◌, ◌-◌, ◌^◌, ◌<◌, ◌≡◌, refl, true, false, List, [], ◌∷◌, ◌++◌,
  Option, none, some, ◌==◌, if◌then◌else◌, ltb, length, take, drop, get_or, arith, length-append,
  drop-append, take-append, ◌∙◌,
}
use rskrb.Result.{ok, bind}
use rskrb.Wire.{Bytes, big, from_bytes16}
use rskrb.Gss.{tok_id_gss_wrap, sent_by_acceptor, validate_gss_token_id, wrap_header}
use rskrb.Gss.Wrap.{
  WrapToken, is_sealed, header, decoded_wrap, decode_sealed, decode_unsealed, decode_wrap,
  encode_wrap,
}
use rskrb.Gss.Headers.{
  take-be_bytes, drop-be_bytes, length-be_bytes-append, big_endian-seq_num, from_bytes16-to_bytes16,
}
use rskrb.Gss.MicRoundTrip.{sender-agrees}

-- The fields fit their widths.
abbrev pub Fits : WrapToken → Type 0
Fits token = (token.ec < 2 ^ 16) × (token.rrc < 2 ^ 16) × (token.snd_seq_num < 2 ^ 64)

header-fields :
    (token : WrapToken) (rest : Bytes) (payload checksum encrypted_body : Option Bytes)
    → Fits token
    → decoded_wrap (header token token.rrc ++ rest) payload checksum encrypted_body
      ≡ record token { payload = payload; checksum = checksum; encrypted_body = encrypted_body }
unfolding wrap_header
header-fields token rest payload checksum encrypted_body (h, h', h'') =
    rw
      (
        take-be_bytes token.snd_seq_num rest,
        big_endian-seq_num token.snd_seq_num h'',
        from_bytes16-to_bytes16 token.ec h,
        from_bytes16-to_bytes16 token.rrc h',
      )
      refl

pub length-header :
    (token : WrapToken) (rest : Bytes) → length (header token token.rrc ++ rest) ≡ 16 + length rest
unfolding wrap_header
length-header token rest = omega (arith, length-be_bytes-append token.snd_seq_num rest)

pub drop-header :
    (token : WrapToken) (rest : Bytes) → drop 16 (header token token.rrc ++ rest) ≡ rest
unfolding wrap_header
drop-header token rest = drop-be_bytes token.snd_seq_num rest

ec-header :
    (token : WrapToken) (rest : Bytes)
    → token.ec < 2 ^ 16
    → from_bytes16 big
        (get_or (header token token.rrc ++ rest) 4 0)
        (get_or (header token token.rrc ++ rest) 5 0)
      ≡ token.ec
unfolding wrap_header
ec-header token rest h = from_bytes16-to_bytes16 token.ec h

drop-nil : {A : Type 0} (n : ℕ) → drop {A = A} n [] ≡ []
drop-nil zero = refl
drop-nil (suc n) = refl

pub drop-drop : {A : Type 0} (m n : ℕ) (xs : List A) → drop (m + n) xs ≡ drop n (drop m xs)
drop-drop zero n xs = ground arith
drop-drop (suc m) n [] = drop-nil (suc m + n) ∙ sym (drop-nil n)
drop-drop (suc m) n (x ∷ xs) =
    let e : suc m + n ≡ suc (m + n) = omega arith in rw e (drop-drop m n xs)

flags-header :
    (token : WrapToken) (rest : Bytes) → get_or (header token token.rrc ++ rest) 2 0 ≡ token.flags
unfolding wrap_header
flags-header token rest = refl

filler-header :
    (token : WrapToken) (rest : Bytes) → get_or (header token token.rrc ++ rest) 3 0 ≡ 0xff
unfolding wrap_header
filler-header token rest = refl

module _ {F : Type 0} where
  id-header :
      (token : WrapToken) (rest : Bytes)
      → validate_gss_token_id {F = F} (take 2 (header token token.rrc ++ rest)) tok_id_gss_wrap
        ≡ ok tt
  unfolding wrap_header validate_gss_token_id
  id-header token rest = refl

  -- Behind the header there is one of two bodies.
  decode-header :
      (token : WrapToken) (rest : Bytes)
      → token.ec < 2 ^ 16
      → decode_wrap {F = F} (header token token.rrc ++ rest) (sent_by_acceptor token.flags) ≡ (
          if is_sealed token
          then decode_sealed (header token token.rrc ++ rest) rest
          else decode_unsealed (header token token.rrc ++ rest) token.ec)
  unfolding decode_wrap
  decode-header token rest h =
      let bytes = header token token.rrc ++ rest in
      rw
        (
          length-header token rest,
          drop-header token rest,
          ec-header token rest h,
          id-header token rest,
          flags-header token rest,
          sender-agrees {F = F} token.flags,
          filler-header token rest,
        )
        (ground arith)

  sent_sealed :
      (token : WrapToken) (body : Bytes)
      → 0 < length body
      → Fits token
      → decode_sealed {F = F} (header token token.rrc ++ body) body
        ≡ ok (record token { payload = none; checksum = none; encrypted_body = some body })
  sent_sealed token [] some_bytes h = absurd (omega arith)
  sent_sealed token (byte ∷ body) some_bytes h =
      rw (header-fields token (byte ∷ body) none none (some (byte ∷ body)) h) refl

  -- A sealed token comes back with what is sealed in it.
  pub decode_wrap-sealed :
      (token : WrapToken) (body : Bytes)
      → Fits token
      → is_sealed token ≡ true
      → token.encrypted_body ≡ some body
      → 0 < length body
      → bind (encode_wrap {F = F} token) (λ bytes. decode_wrap bytes (sent_by_acceptor token.flags))
        ≡ ok (record token { payload = none; checksum = none; encrypted_body = some body })
  unfolding encode_wrap
  decode_wrap-sealed token body h sealed e some_bytes =
      rw (sealed, e, decode-header token body h.0, sealed) (sent_sealed token body some_bytes h)

  sent_unsealed :
      (token : WrapToken) (payload checksum : Bytes)
      → Fits token
      → length checksum ≡ token.ec
      → decode_unsealed {F = F} (header token token.rrc ++ (payload ++ checksum)) token.ec
        ≡ ok (record token {
          payload = some payload;
          checksum = some checksum;
          encrypted_body = none;
        })
  sent_unsealed token payload checksum h size =
      let bytes = header token token.rrc ++ (payload ++ checksum) in
      let whole : length bytes ≡ 16 + (length payload + token.ec) =
        omega (
          arith,
          length-header token (payload ++ checksum),
          length-append payload checksum,
          size,
        ) in
      let enough : ltb (16 + (length payload + token.ec) - 16) token.ec ≡ false = ground arith in
      let start : 16 + (length payload + token.ec) - token.ec ≡ 16 + length payload = omega arith in
      let start' : 16 + length payload - 16 ≡ length payload = omega arith in
      rw
        (
          whole,
          enough,
          start,
          start',
          drop-drop 16 (length payload) bytes,
          drop-header token (payload ++ checksum),
          take-append payload checksum,
          drop-append payload checksum,
        )
        (ap ok (header-fields token (payload ++ checksum) (some payload) (some checksum) none h))

  -- An unsealed wrap token with a payload and a checksum of as many bytes as its `ec` is written, and read
  -- back from the bytes with all its fields. They fit their widths.
  decode_wrap-unsealed :
      (token : WrapToken) (payload checksum : Bytes)
      → Fits token
      → is_sealed token ≡ false
      → token.payload ≡ some payload
      → token.checksum ≡ some checksum
      → length checksum ≡ token.ec
      → bind (encode_wrap {F = F} token) (λ bytes. decode_wrap bytes (sent_by_acceptor token.flags))
        ≡ ok (record token {
          payload = some payload;
          checksum = some checksum;
          encrypted_body = none;
        })
  unfolding encode_wrap
  decode_wrap-unsealed token payload checksum h unsealed e e' size =
      let fits : (length checksum == token.ec) ≡ true =
        (==_iff (length checksum) token.ec).1 size in
      rw (unsealed, e, e', fits, decode-header token (payload ++ checksum) h.0, unsealed)
        (sent_unsealed token payload checksum h size)

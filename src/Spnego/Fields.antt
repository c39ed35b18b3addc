-- ===== src/Spnego/Fields.antt =====
-- The loops over the values of a sequence in src/spnego.rs: what each round does, and that the
-- number of bytes is fuel enough.
use mathlib.Core.Path.{subst}
use rskrb.Prelude.{
  ℕ, zero, suc, ◌+◌, ◌%◌, ◌^◌, ◌≤◌, ◌<◌, ◌≡◌, ◌≢◌, refl, ◌∙◌, List, [], ◌∷◌, ◌++◌, Option, none,
  some, append-nil, arith, length, length-append, All,
}
use rskrb.Result.{Result, ok, bind}
use rskrb.Wire.{Bytes}
use rskrb.Spnego.{ObjectIdentifier, Error, Tlv, tag_object_identifier}
use rskrb.Spnego.Writer.{encode_tlv}
use rskrb.Spnego.Values.{read_tlv-encode_tlv, length-encode_tlv}
use rskrb.Spnego.Arcs.{IsOid, oid_bytes, encode_oid-oid_bytes}
use rskrb.Spnego.MechRoundTrip.{decode_oid_tlv-oid_bytes}
use rskrb.Spnego.Encoding.{optional_field, encode_oids}
use rskrb.Spnego.Decoding.{decode_oids, read_fields}

-- A value and what follows it.
pub length-encode_tlv-append :
    (tag : ℕ) (value rest : Bytes)
    → length value + 2 + length rest ≤ length (encode_tlv tag value ++ rest)
length-encode_tlv-append tag value rest =
    omega (arith, length-append (encode_tlv tag value) rest, length-encode_tlv tag value)

-- The layout of a list of identifiers.
abbrev pub oids_bytes : List ObjectIdentifier → Bytes
oids_bytes [] = []
oids_bytes (oid ∷ oids) = encode_tlv tag_object_identifier (oid_bytes oid) ++ oids_bytes oids

module _ {F : Type 0} where
  pub encode_oids-oids_bytes :
      (oids : List ObjectIdentifier)
      → All IsOid oids
      → encode_oids {F = F} oids ≡ ok (oids_bytes oids)
  unfolding encode_oids
  encode_oids-oids_bytes [] h = refl
  encode_oids-oids_bytes (oid ∷ oids) (h, hs) =
      rw (encode_oid-oid_bytes {F = F} oid h, encode_oids-oids_bytes oids hs) refl

  decode_oids-step :
      (fuel : ℕ) (oid : ObjectIdentifier) (rest : Bytes)
      → IsOid oid
      → length (oid_bytes oid) < 2 ^ 64
      → decode_oids {F = F} (suc fuel) (encode_tlv tag_object_identifier (oid_bytes oid) ++ rest)
        ≡ bind (decode_oids fuel rest) (λ oids. ok (oid ∷ oids))
  unfolding decode_oids encode_tlv
  decode_oids-step fuel oid rest h fits =
      rw
        (
          read_tlv-encode_tlv {F = F} tag_object_identifier (oid_bytes oid) rest (omega arith) fits,
          decode_oid_tlv-oid_bytes {F = F} oid h,
        )
        refl

  pub decode_oids-oids_bytes :
      (fuel : ℕ) (oids : List ObjectIdentifier)
      → All IsOid oids
      → length (oids_bytes oids) ≤ fuel
      → fuel < 2 ^ 64
      → decode_oids {F = F} fuel (oids_bytes oids) ≡ ok oids
  unfolding decode_oids
  decode_oids-oids_bytes fuel [] h enough fits = refl
  decode_oids-oids_bytes zero (oid ∷ oids) h enough fits = absurd (
      omega
        (arith, length-encode_tlv-append tag_object_identifier (oid_bytes oid) (oids_bytes oids)))
  decode_oids-oids_bytes (suc fuel) (oid ∷ oids) (h, hs) enough fits =
      let size = length-encode_tlv-append tag_object_identifier (oid_bytes oid) (oids_bytes oids) in
      decode_oids-step fuel oid (oids_bytes oids) h (omega (arith, size))
      ∙ rw (decode_oids-oids_bytes fuel oids hs (omega (arith, size)) (omega arith)) refl

  module _ {S : Type 0} (field : S → Tlv → Result (Error F) S) where
    -- The loop over these bytes ends with that state, on any fuel that is not below their number.
    abbrev pub Reads : Bytes → S → S → Type 0
    Reads bytes s out =
        (fuel : ℕ) → length bytes ≤ fuel → fuel < 2 ^ 64 → read_fields field fuel bytes s ≡ ok out

    pub Reads-end : (s : S) → Reads [] s s
    unfolding read_fields
    Reads-end s fuel enough fits = refl

    pub Reads-tlv :
        (tag : ℕ) (value rest : Bytes) (s s' out : S)
        → tag % 0x20 ≢ 0x1f
        → (length value < 2 ^ 64 → field s (record { tag = tag; value = value }) ≡ ok s')
        → Reads rest s' out
        → Reads (encode_tlv tag value ++ rest) s out
    unfolding read_fields encode_tlv
    Reads-tlv tag value rest s s' out low step more zero enough fits = absurd (omega arith)
    Reads-tlv tag value rest s s' out low step more (suc fuel) enough fits =
        let size = length-encode_tlv-append tag value rest in
        let small : length value < 2 ^ 64 = omega (arith, size) in
        rw (read_tlv-encode_tlv {F = F} tag value rest low small, step small)
          (more fuel (omega (arith, size)) (omega arith))

    pub Reads-optional_field :
        (tag inner : ℕ) (value : Option Bytes) (rest : Bytes) (after : Option Bytes → S) (out : S)
        → tag % 0x20 ≢ 0x1f
        → ((bytes : Bytes)
            → length (encode_tlv inner bytes) < 2 ^ 64
            → field (after none) (record { tag = tag; value = encode_tlv inner bytes })
              ≡ ok (after (some bytes)))
        → Reads rest (after value) out
        → Reads (optional_field tag inner value ++ rest) (after none) out
    Reads-optional_field tag inner none rest after out low step more = more
    Reads-optional_field tag inner (some bytes) rest after out low step more =
        Reads-tlv tag (encode_tlv inner bytes) rest (after none) (after (some bytes)) out low
          (step bytes) more

    pub Reads-last_field :
        (tag inner : ℕ) (value : Option Bytes) (after : Option Bytes → S)
        → tag % 0x20 ≢ 0x1f
        → ((bytes : Bytes)
            → length (encode_tlv inner bytes) < 2 ^ 64
            → field (after none) (record { tag = tag; value = encode_tlv inner bytes })
              ≡ ok (after (some bytes)))
        → Reads (optional_field tag inner value) (after none) (after value)
    Reads-last_field tag inner value after low step =
        subst (λ bytes. Reads bytes (after none) (after value))
          (append-nil (optional_field tag inner value))
          (Reads-optional_field tag inner value [] after (after value) low step
            (Reads-end (after value)))

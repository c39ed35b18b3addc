-- ===== src/Spnego/Arcs.antt =====
-- Object identifiers of src/spnego/der.rs as bytes and back.
use rskrb.Prelude.{
  ℕ, ◌+◌, ◌*◌, ◌/◌, ◌%◌, ◌^◌, ◌≤◌, ◌<◌, ◌≡◌, ◌≢◌, refl, ap, append_assoc, Bool, inl, inr, true,
  false, List, [], ◌∷◌, ◌++◌, arith, ltb, get_or, All,
}
use rskrb.Result.{ok, bind, Result-cases}
use rskrb.Wire.{Bytes}
use rskrb.Spnego.{ObjectIdentifier, tag_object_identifier}
use rskrb.Spnego.Oid.{validate_arcs, from_arcs}
use rskrb.Spnego.Reader.{push_bits, decode_arcs, decode_oid_value}
use rskrb.Spnego.Writer.{
  encode_tlv, encode_base128, base128_loop, encode_arcs, encode_oid, oid_value, first_arcs,
}
use rskrb.Spnego.Values.{decode_arcs-base128}

abbrev pub IsArc : ℕ → Type 0
IsArc arc = arc < 2 ^ 32

-- The identifiers that are read as they were written.
abbrev pub IsOid : ObjectIdentifier → Type 0
IsOid (first ∷ second ∷ arcs) = (first ≤ 2) × (second < 40) × All IsArc arcs
IsOid _ = ⊥

-- The bytes of such an identifier.
abbrev pub oid_bytes : ObjectIdentifier → Bytes
oid_bytes (first ∷ second ∷ arcs) = (first * 40 + second) ∷ encode_arcs arcs
oid_bytes _ = []

-- Seven bits of an arc.
abbrev pub IsGroup : ℕ → Type 0
IsGroup group = group < 0x80

-- The groups as bytes, the last one without the high bit.
abbrev pub groups_bytes : ℕ → List ℕ → Bytes
groups_bytes group [] = group ∷ []
groups_bytes group (next ∷ groups) = (0x80 + group) ∷ groups_bytes next groups

-- The number that the groups behind `arc` make with it.
abbrev pub groups_value : ℕ → List ℕ → ℕ
groups_value arc [] = arc
groups_value arc (group ∷ groups) = groups_value (arc * 128 + group) groups

one_byte : (n : ℕ) → n < 0x80 → encode_base128 n ≡ n ∷ []
unfolding encode_base128 base128_loop
one_byte n h = ground arith

high_byte : (n : ℕ) → 120 ≤ n → n < 2 ^ 32 → 120 ≤ get_or (encode_base128 n) 0 0
unfolding encode_base128 base128_loop
high_byte n h b = ground arith

get_or-append : (xs ys : Bytes) → 0 < get_or xs 0 0 → get_or (xs ++ ys) 0 0 ≡ get_or xs 0 0
get_or-append [] ys h = absurd (omega arith)
get_or-append (x ∷ xs) ys h = refl

module _ {F : Type 0} where
  decode_arcs-encode_arcs :
      (arcs : List ℕ) → All IsArc arcs → decode_arcs {F = F} false 0 (encode_arcs arcs) ≡ ok arcs
  unfolding encode_arcs
  decode_arcs-encode_arcs [] h = unfold decode_arcs in refl
  decode_arcs-encode_arcs (arc ∷ arcs) (h, hs) =
      rw (decode_arcs-base128 {F = F} arc (encode_arcs arcs) h, decode_arcs-encode_arcs arcs hs)
        refl

  decode_arcs-prefix :
      (arcs : List ℕ) (rest : Bytes) {read : List ℕ}
      → All IsArc arcs
      → decode_arcs {F = F} false 0 rest ≡ ok read
      → decode_arcs {F = F} false 0 (encode_arcs arcs ++ rest) ≡ ok (arcs ++ read)
  unfolding encode_arcs
  decode_arcs-prefix [] rest h e = e
  decode_arcs-prefix (arc ∷ arcs) rest (h, hs) e =
      rw
        (
          append_assoc (encode_base128 arc) (encode_arcs arcs) rest,
          decode_arcs-base128 {F = F} arc (encode_arcs arcs ++ rest) h,
          decode_arcs-prefix arcs rest hs e,
        )
        refl

  decode_arcs-step :
      (inside : Bool) (arc byte : ℕ) (bytes : Bytes)
      → decode_arcs {F = F} inside arc (byte ∷ bytes) ≡ elim (ltb byte 0x80) [
        | true ↦ bind (decode_arcs {F = F} false 0 bytes) λ arcs. ok (push_bits arc byte ∷ arcs)
        | false ↦ decode_arcs true (push_bits arc byte) bytes
      ]
  unfolding decode_arcs
  decode_arcs-step true arc byte bytes = refl
  decode_arcs-step false arc byte bytes = refl

  -- Each group is added to the arc modulo 2^32.
  decode_arcs-groups :
      (inside : Bool) (arc group : ℕ) (groups : List ℕ) (rest : Bytes)
      → All IsGroup (group ∷ groups)
      → decode_arcs {F = F} inside (arc % 2 ^ 32) (groups_bytes group groups ++ rest)
        ≡ bind
            (decode_arcs {F = F} false 0 rest)
            (λ arcs. ok (groups_value arc (group ∷ groups) % 2 ^ 32 ∷ arcs))
  decode_arcs-groups inside arc group [] rest (h, _) =
      let last : ltb group 0x80 ≡ true = ground arith in
      let pushed : push_bits (arc % 2 ^ 32) group ≡ (arc * 128 + group) % 2 ^ 32 = omega arith in
      rw (decode_arcs-step inside (arc % 2 ^ 32) group rest, last, pushed) refl
  decode_arcs-groups inside arc group (next ∷ groups) rest (h, hs) =
      let more : ltb (0x80 + group) 0x80 ≡ false = ground arith in
      let pushed : push_bits (arc % 2 ^ 32) (0x80 + group) ≡ (arc * 128 + group) % 2 ^ 32 =
        omega arith in
      rw
        (
          decode_arcs-step inside (arc % 2 ^ 32) (0x80 + group) (groups_bytes next groups ++ rest),
          more,
          pushed,
        )
        (decode_arcs-groups true (arc * 128 + group) next groups rest hs)

  pub encode_oid-oid_bytes :
      (oid : ObjectIdentifier)
      → IsOid oid
      → encode_oid {F = F} oid ≡ ok (encode_tlv tag_object_identifier (oid_bytes oid))
  unfolding encode_oid oid_value validate_arcs first_arcs
  encode_oid-oid_bytes [] h = absurd h
  encode_oid-oid_bytes (first ∷ []) h = absurd h
  encode_oid-oid_bytes (first ∷ second ∷ arcs) (h, h', hs) =
      ground (arith, one_byte (first * 40 + second) (omega arith))

  pub decode_oid_value-oid_bytes :
      (oid : ObjectIdentifier) → IsOid oid → decode_oid_value {F = F} (oid_bytes oid) ≡ ok oid
  unfolding decode_oid_value from_arcs validate_arcs
  decode_oid_value-oid_bytes [] h = absurd h
  decode_oid_value-oid_bytes (first ∷ []) h = absurd h
  decode_oid_value-oid_bytes (first ∷ second ∷ arcs) (h, h', hs) =
      let a : (first * 40 + second) / 40 ≡ first = omega arith in
      let b : (first * 40 + second) % 40 ≡ second = omega arith in
      rw (decode_arcs-encode_arcs arcs hs, a, b) (ground arith)

  -- Writing an identifier with a first arc of at most 2, a second one below 40 and others of 32 bits
  -- succeeds, and what is written for its value is read as the same identifier.
  pub decode_oid_value-oid_value :
      (oid : ObjectIdentifier) → IsOid oid → bind (oid_value {F = F} oid) decode_oid_value ≡ ok oid
  unfolding oid_value first_arcs
  decode_oid_value-oid_value [] h = absurd h
  decode_oid_value-oid_value (first ∷ []) h = absurd h
  decode_oid_value-oid_value (first ∷ second ∷ arcs) (h, h', hs) =
      let value : encode_base128 (first * 40 + second) ++ encode_arcs arcs
          ≡ (first * 40 + second) ∷ encode_arcs arcs =
        ap (λ t. t ++ encode_arcs arcs) (one_byte (first * 40 + second) (omega arith)) in
      ground (arith, value, decode_oid_value-oid_bytes (first ∷ second ∷ arcs) (h, h', hs))

  -- A first byte of 120 or more stands for a first arc above 2.
  high_first :
      (value : Bytes) (oid : ObjectIdentifier)
      → 120 ≤ get_or value 0 0
      → decode_oid_value {F = F} value ≢ ok oid
  unfolding decode_oid_value from_arcs validate_arcs
  high_first [] oid h e = omega (arith, h)
  high_first (first ∷ bytes) oid h e = elim (Result-cases (decode_arcs {F = F} false 0 bytes)) [
    | inl (arcs, d) ↦ let e' = rw d at e in ground arith
    | inr (inl (x, d)) ↦ cc (rw d at e)
    | inr (inr d) ↦ cc (rw d at e)
  ]

  -- From 2.40 on an identifier, valid as it is, is written, and the value that was written is not read as
  -- any identifier.
  pub decode_oid_value_refused :
      (second : ℕ) (arcs : List ℕ) (oid : ObjectIdentifier)
      → 40 ≤ second
      → 80 + second < 2 ^ 32
      → (value : Bytes) × (oid_value {F = F} (2 ∷ second ∷ arcs) ≡ ok value)
        × (decode_oid_value {F = F} value ≢ ok oid)
  unfolding oid_value first_arcs
  decode_oid_value_refused second arcs oid low fits =
      let head = high_byte (2 * 40 + second) (omega arith) (omega arith) in
      (
        encode_base128 (2 * 40 + second) ++ encode_arcs arcs,
        ground arith,
        high_first (encode_base128 (2 * 40 + second) ++ encode_arcs arcs) oid (
            omega (
              arith,
              head,
              get_or-append (encode_base128 (2 * 40 + second)) (encode_arcs arcs) (omega arith),
            )),
      )

  -- A value in which some arc has any number of groups of seven bits is read without an error, and
  -- that arc is read modulo 2^32; the other arcs have 32 bits, and the first two share a byte. So two
  -- arcs that differ by a multiple of 2^32 are read alike.
  pub decode_oid_value_wraps :
      (first second : ℕ) (before : List ℕ) (group : ℕ) (groups : List ℕ) (after : List ℕ)
      → first ≤ 2
      → second < 40
      → All IsArc before
      → All IsGroup (group ∷ groups)
      → All IsArc after
      → decode_oid_value {F = F} (
          (first * 40 + second)
          ∷ (encode_arcs before ++ (groups_bytes group groups ++ encode_arcs after)))
        ≡ ok (first ∷ second ∷ (before ++ (groups_value 0 (group ∷ groups) % 2 ^ 32 ∷ after)))
  unfolding decode_oid_value from_arcs validate_arcs
  decode_oid_value_wraps first second before group groups after low low' is_before is_groups
        is_after =
      let a : (first * 40 + second) / 40 ≡ first = omega arith in
      let b : (first * 40 + second) % 40 ≡ second = omega arith in
      let arc : decode_arcs {F = F} false 0 (groups_bytes group groups ++ encode_arcs after)
          ≡ ok (groups_value 0 (group ∷ groups) % 2 ^ 32 ∷ after) =
        rw
          (
            decode_arcs-groups false 0 group groups (encode_arcs after) is_groups,
            decode_arcs-encode_arcs after is_after,
          )
          refl in
      rw
        (
          decode_arcs-prefix before (groups_bytes group groups ++ encode_arcs after) is_before,
          arc,
          a,
          b,
        )
        (ground arith)

-- ===== src/Wire/Reads.antt =====
-- `Reads p enc a`: wherever `enc` stands in an input, `p` reads `a` there and moves behind it.
-- The rules follow the `do` blocks of the readers.
use mathlib.Core.Path.{subst}
use rskrb.Prelude.{
  ℕ, ◌+◌, ◌^◌, ◌<◌, ◌≡◌, ap, ◌∙◌, true, List, [], ◌∷◌, ◌++◌, append_assoc, append-nil, arith,
  length, length-append, get_or, All,
}
use rskrb.Prelude.Int.{ℤ}
use rskrb.Result.{Result, ok}
use rskrb.Utf8.{is_utf8}
use rskrb.Wire.{
  Bytes, WireError, Reader, Endian, ◌>>=◌, pure, lift, from_utf8, read_bytes, read_many, read_u8,
  read_u16, read_i16, read_u32, read_i32, signed16, signed32, pattern16, pattern32, to_bytes16,
  to_bytes32,
}
use rskrb.Wire.Slices.{read_bytes-append}
use rskrb.Wire.Numbers.{
  FitsI16, FitsI32, join16, join32, join16-to_bytes16, join32-to_bytes32, length-to_bytes16,
  length-to_bytes32, pattern16-lt, pattern32-lt, signed16-pattern16, signed32-pattern32,
}

pub record Reads {E A : Type 0} (p : Reader E A) (enc : Bytes) (a : A) : Type 0 where
  pub reads :
      (pre rest : Bytes)
      → length (pre ++ (enc ++ rest)) < 2 ^ 64
      → p (pre ++ (enc ++ rest)) (length pre) ≡ ok (a, length pre + length enc)

module _ {E A : Type 0} where
  pub Reads-pure : (a : A) → Reads {E = E} (pure a) [] a
  Reads-pure a = record { reads = λ pre rest h. ap (λ n. ok (a, n)) (omega arith) }

  pub Reads-lift : {r : Result E A} {a : A} → r ≡ ok a → Reads (lift r) [] a
  Reads-lift {a = a} e = record { reads = λ pre rest h. rw e (ap (λ n. ok (a, n)) (end pre)) }
    where
      end : (pre : Bytes) → length pre ≡ length pre + length {A = ℕ} []
      end pre = omega arith

  pub Reads-cast :
      {p : Reader E A} {enc enc' : Bytes} {a : A} → enc ≡ enc' → Reads p enc a → Reads p enc' a
  Reads-cast {p} {a = a} e = subst (λ x. Reads p x a) e

-- The encoding as the whole input.
pub Reads-whole :
    {E A : Type 0} {p : Reader E A} {enc : Bytes} {a : A}
    → Reads p enc a
    → length enc < 2 ^ 64
    → p enc 0 ≡ ok (a, length enc)
Reads-whole {a = a} r h =
    rw append-nil at (r.reads [] [] (rw append-nil h)) ∙ ap (λ n. ok (a, n)) (omega arith)

module _ {E A B : Type 0} where
  pub Reads-bind :
      {p : Reader E A} (f : A → Reader E B) {enc enc' : Bytes} {a : A} {b : B}
      → Reads p enc a
      → Reads (f a) enc' b
      → Reads (p >>= f) (enc ++ enc') b
  unfolding ◌>>=◌
  Reads-bind {p} f {enc} {enc'} {a} {b} rp rf = record { reads = at }
    where
      at :
          (pre rest : Bytes)
          → length (pre ++ ((enc ++ enc') ++ rest)) < 2 ^ 64
          → (p >>= f) (pre ++ ((enc ++ enc') ++ rest)) (length pre)
            ≡ ok (b, length pre + length (enc ++ enc'))
      at pre rest h =
          let e : (enc ++ enc') ++ rest ≡ enc ++ (enc' ++ rest) = append_assoc enc enc' rest in
          let h' : length (pre ++ (enc ++ (enc' ++ rest))) < 2 ^ 64 = rw e at h in
          let g : (pre ++ enc) ++ (enc' ++ rest) ≡ pre ++ (enc ++ (enc' ++ rest)) =
            append_assoc pre enc (enc' ++ rest) in
          let second = rf.reads (pre ++ enc) rest (rw g h') in
          rw (e, rp.reads pre (enc' ++ rest) h')
            (rw (g, length-append pre enc) at second
              ∙ ap (λ n. ok (b, n)) (omega (arith, length-append enc enc')))

  -- A last step that only builds the value.
  pub Reads-map :
      {p : Reader E A} (g : A → B) {enc : Bytes} {a : A}
      → Reads p enc a
      → Reads (p >>= λ x. pure (g x)) enc (g a)
  Reads-map {p} g {enc} {a} r = Reads-cast (append-nil enc) (Reads-bind _ r (Reads-pure (g a)))

-- The encodings of a list's items, one after the other.
abbrev pub concat_map {ℓ} : {A : Type ℓ} → (A → Bytes) → List A → Bytes
concat_map enc [] = []
concat_map enc (x ∷ xs) = enc x ++ concat_map enc xs

pub Reads-many :
    {E A : Type 0} (p : Reader E A) (enc : A → Bytes) (xs : List A)
    → All (λ x. Reads p (enc x) x) xs
    → Reads (read_many (length xs) p) (concat_map enc xs) xs
unfolding read_many
Reads-many p enc [] h = Reads-pure []
Reads-many p enc (x ∷ xs) (h, hs) =
    Reads-bind _ h (Reads-map (λ items. x ∷ items) (Reads-many p enc xs hs))

module _ {E : Type 0} ⦃w : WireError E⦄ where
  pub Reads-bytes : (raw : Bytes) → Reads {E = E} (read_bytes (length raw)) raw raw
  Reads-bytes raw = record { reads = read_bytes-append raw }

  Reads-bytes_of : {n : ℕ} (raw : Bytes) → length raw ≡ n → Reads {E = E} (read_bytes n) raw raw
  Reads-bytes_of raw e = rw (← e) (Reads-bytes raw)

  pub Reads-u8 : (v : ℕ) → Reads {E = E} read_u8 (v ∷ []) v
  unfolding read_u8
  Reads-u8 v = Reads-map (λ raw. get_or raw 0 0) (Reads-bytes (v ∷ []))

  pub Reads-u16 : (e : Endian) (v : ℕ) → v < 0x10000 → Reads {E = E} (read_u16 e) (to_bytes16 e v) v
  unfolding read_u16
  Reads-u16 e v h =
      subst (Reads (read_u16 {E = E} e) (to_bytes16 e v)) (join16-to_bytes16 e v h)
        (Reads-map (join16 e) (Reads-bytes_of _ (length-to_bytes16 e v)))

  pub Reads-i16 :
      (e : Endian) (v : ℤ) → FitsI16 v → Reads {E = E} (read_i16 e) (to_bytes16 e (pattern16 v)) v
  unfolding read_i16
  Reads-i16 e v h =
      subst (Reads (read_i16 {E = E} e) (to_bytes16 e (pattern16 v)))
        (ap signed16 (join16-to_bytes16 e (pattern16 v) (pattern16-lt v h))
          ∙ signed16-pattern16 v h)
        (Reads-map (λ raw. signed16 (join16 e raw)) (Reads-bytes_of _ (length-to_bytes16 e _)))

  pub Reads-u32 : (e : Endian) (v : ℕ) → v < 2 ^ 32 → Reads {E = E} (read_u32 e) (to_bytes32 e v) v
  unfolding read_u32
  Reads-u32 e v h =
      subst (Reads (read_u32 {E = E} e) (to_bytes32 e v)) (join32-to_bytes32 e v h)
        (Reads-map (join32 e) (Reads-bytes_of _ (length-to_bytes32 e v)))

  pub Reads-i32 :
      (e : Endian) (v : ℤ) → FitsI32 v → Reads {E = E} (read_i32 e) (to_bytes32 e (pattern32 v)) v
  unfolding read_i32
  Reads-i32 e v h =
      subst (Reads (read_i32 {E = E} e) (to_bytes32 e (pattern32 v)))
        (ap signed32 (join32-to_bytes32 e (pattern32 v) (pattern32-lt v h))
          ∙ signed32-pattern32 v h)
        (Reads-map (λ raw. signed32 (join32 e raw)) (Reads-bytes_of _ (length-to_bytes32 e _)))

  -- A text of known length, checked and handed over.
  pub Reads-text :
      (raw : Bytes)
      → is_utf8 raw ≡ true
      → Reads {E = E} (read_bytes (length raw) >>= λ x. lift (from_utf8 x)) raw raw
  Reads-text raw h =
      Reads-cast (append-nil raw) (Reads-bind _ (Reads-bytes raw) (Reads-lift (rw h)))

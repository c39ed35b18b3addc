-- ===== src/Wire/Range.antt =====
-- `Gives p P`: on any input `p` comes to an end, with an error or with a value of which `P` holds.
-- A postcondition of the readers, with a rule for each step of a `do` block.
use rskrb.Prelude.{
  ℕ, zero, suc, ◌+◌, ◌^◌, ◌≤◌, ◌<◌, ◌≡◌, refl, Bool, true, false, List, [], ◌∷◌, arith, ltb,
  if◌then◌else◌, length, get_or, drop, length-take, length-drop, All, All-take, All-drop,
}
use rskrb.Prelude.Int.{ℤ, pos, negsuc}
use rskrb.Result.{Result, Ensures, holds, rejected, Ensures-bind, Ensures-map, Ensures-if}
use rskrb.Utf8.{is_utf8}
use rskrb.Wire.{
  Bytes, WireError, Reader, Endian, big, little, ◌>>=◌, pure, lift, from_utf8, non_negative,
  read_bytes, checked_end, read_many, read_u8, read_u16, read_i16, read_u32, read_i32,
}
use rskrb.Wire.Numbers.{FitsI16, FitsI32, join16, join32, signed16-Fits, signed32-Fits}

abbrev pub IsByte : ℕ → Type 0
IsByte b = b < 256

pub record Gives {E A : Type 0} (p : Reader E A) (P : A → Type 0) : Type 0 where
  pub gives :
      (bytes : Bytes) (offset : ℕ) → All IsByte bytes → Ensures (λ (a, _). P a) (p bytes offset)

module _ {E A : Type 0} {P : A → Type 0} where
  pub Gives-pure : {a : A} → P a → Gives {E = E} (pure a) P
  Gives-pure h = record { gives = λ bytes offset hb. holds h }

  pub Gives-lift : {r : Result E A} → Ensures P r → Gives (lift r) P
  Gives-lift e = record { gives = λ bytes offset hb. Ensures-bind _ e (λ a h. holds h) }

  pub Gives-if :
      (b : Bool) {p q : Reader E A}
      → (b ≡ true → Gives p P)
      → (b ≡ false → Gives q P)
      → Gives (if b then p else q) P
  Gives-if true hp hq = hp refl
  Gives-if false hp hq = hq refl

  pub Gives-map : {p : Reader E A} {Q : A → Type 0} → ((a : A) → P a → Q a) → Gives p P → Gives p Q
  Gives-map f g = record {
    gives = λ bytes offset hb. Ensures-map (λ (a, o) h. f a h) (g.gives bytes offset hb);
  }

  pub Gives-bind :
      {B : Type 0} {p : Reader E A} (f : A → Reader E B) {Q : B → Type 0}
      → Gives p P
      → ((a : A) → P a → Gives (f a) Q)
      → Gives (p >>= f) Q
  unfolding ◌>>=◌
  Gives-bind f g k = record {
    gives = λ bytes offset hb.
        Ensures-bind _ (g.gives bytes offset hb) (λ (a, o) h. (k a h).gives bytes o hb);
  }

abbrev pub ManyOf : {A : Type 0} → (A → Type 0) → ℕ → List A → Type 0
ManyOf P n xs = All P xs × (length xs ≡ n)

pub Gives-many :
    {E A : Type 0} {p : Reader E A} (P : A → Type 0) (n : ℕ)
    → Gives p P
    → Gives (read_many n p) (ManyOf P n)
unfolding read_many
Gives-many P zero g = Gives-pure (tt, refl)
Gives-many P (suc n) g =
    Gives-bind _ g
      λ a h. Gives-bind _ (Gives-many P n g) λ items (hs, q). Gives-pure ((h, hs), omega (arith, q))

join16-lt : (e : Endian) (raw : Bytes) → ManyOf IsByte 2 raw → join16 e raw < 0x10000
join16-lt big [] (h, q) = absurd (omega arith)
join16-lt big (a ∷ []) (h, q) = absurd (omega arith)
join16-lt big (a ∷ b ∷ raw) (h, q) = omega arith
join16-lt little [] (h, q) = absurd (omega arith)
join16-lt little (a ∷ []) (h, q) = absurd (omega arith)
join16-lt little (a ∷ b ∷ raw) (h, q) = omega arith

join32-lt : (e : Endian) (raw : Bytes) → ManyOf IsByte 4 raw → join32 e raw < 2 ^ 32
join32-lt e [] (h, q) = absurd (omega arith)
join32-lt e (a ∷ []) (h, q) = absurd (omega arith)
join32-lt e (a ∷ b ∷ []) (h, q) = absurd (omega arith)
join32-lt e (a ∷ b ∷ c ∷ []) (h, q) = absurd (omega arith)
join32-lt big (a ∷ b ∷ c ∷ d ∷ raw) (h, q) = omega arith
join32-lt little (a ∷ b ∷ c ∷ d ∷ raw) (h, q) = omega arith

get-IsByte : (raw : Bytes) → ManyOf IsByte 1 raw → IsByte (get_or raw 0 0)
get-IsByte [] (h, q) = absurd (omega arith)
get-IsByte (a ∷ raw) (h, q) = h.0

module _ {E : Type 0} ⦃w : WireError E⦄ where
  pub checked_end-Ensures :
      (bytes : Bytes) (offset len : ℕ)
      → Ensures
          (λ end. (end ≡ offset + len) × (offset + len ≤ length bytes))
          (checked_end {E = E} bytes offset len)
  unfolding checked_end
  checked_end-Ensures bytes offset len =
      Ensures-if (ltb (offset + len) (2 ^ 64))
        (λ _.
          Ensures-if (ltb (length bytes) (offset + len)) (λ _. rejected)
            (λ e. holds (refl, ground arith)))
        (λ _. rejected)

  pub Gives-bytes : (n : ℕ) → Gives {E = E} (read_bytes n) (ManyOf IsByte n)
  unfolding read_bytes
  Gives-bytes n = record {
    gives = λ bytes offset hb.
        Ensures-bind _ (checked_end-Ensures bytes offset n) (λ end (_, inside). holds (
          All-take _ n (drop offset bytes) (All-drop _ offset bytes hb),
          omega (arith, length-take n (drop offset bytes), length-drop offset bytes),
        ));
  }

  -- A 32-bit number takes four bytes.
  pub read_i32-advance :
      (e : Endian) (bytes : Bytes) (offset : ℕ)
      → Ensures
          (λ (_, offset'). (offset' ≡ offset + 4) × (offset' ≤ length bytes))
          (read_i32 {E = E} e bytes offset)
  unfolding read_i32 ◌>>=◌ read_bytes
  read_i32-advance e bytes offset =
      Ensures-bind _
        (Ensures-bind {Q = λ (_, o). (o ≡ offset + 4) × (o ≤ length bytes)} _
          (checked_end-Ensures bytes offset 4) (λ end (q, inside). holds (q, omega arith)))
        (λ (raw, o) h. holds h)

  pub Gives-u8 : Gives {E = E} read_u8 IsByte
  unfolding read_u8
  Gives-u8 = Gives-bind _ (Gives-bytes 1) λ raw h. Gives-pure (get-IsByte raw h)

  pub Gives-u16 : (e : Endian) → Gives {E = E} (read_u16 e) (λ v. v < 0x10000)
  unfolding read_u16
  Gives-u16 e = Gives-bind _ (Gives-bytes 2) λ raw h. Gives-pure (join16-lt e raw h)

  pub Gives-i16 : (e : Endian) → Gives {E = E} (read_i16 e) FitsI16
  unfolding read_i16
  Gives-i16 e =
      Gives-bind _ (Gives-bytes 2) λ raw h. Gives-pure (signed16-Fits _ (join16-lt e raw h))

  pub Gives-u32 : (e : Endian) → Gives {E = E} (read_u32 e) (λ v. v < 2 ^ 32)
  unfolding read_u32
  Gives-u32 e = Gives-bind _ (Gives-bytes 4) λ raw h. Gives-pure (join32-lt e raw h)

  pub Gives-i32 : (e : Endian) → Gives {E = E} (read_i32 e) FitsI32
  unfolding read_i32
  Gives-i32 e =
      Gives-bind _ (Gives-bytes 4) λ raw h. Gives-pure (signed32-Fits _ (join32-lt e raw h))

  pub non_negative-Ensures : (v : ℤ) → Ensures (λ n. v ≡ pos n) (non_negative {E = E} v)
  non_negative-Ensures (pos n) = holds refl
  non_negative-Ensures (negsuc n) = rejected

  pub Gives-utf8 :
      (raw : Bytes) → Gives {E = E} (lift (from_utf8 raw)) (λ s. (is_utf8 s ≡ true) × (s ≡ raw))
  Gives-utf8 raw = Gives-lift (Ensures-if (is_utf8 raw) (λ e. holds (e, refl)) (λ _. rejected))

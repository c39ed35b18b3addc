-- ===== src/Wire/Advance.antt =====
-- `Advances k p`: where `p` succeeds, it has moved the offset by `k` bytes at least. The rules are
-- found by `search`, one for each step of a `do` block.
use rskrb.Prelude.{◌≡◌, ◌∷◌, [], ℕ, zero, suc, ◌+◌, ◌≤◌, Bool, true, false, arith, if◌then◌else◌}
use rskrb.Result.{err, stuck, bind-eq-ok, Result, ok}
use rskrb.Wire.Slices.{read_bytes_inv}
use rskrb.Wire.{
  Bytes, WireError, Reader, Endian, ◌>>=◌, pure, lift, read_bytes, read_many, read_u8, read_u16,
  read_i16, read_u32, read_i32,
}

pub record Advances {E A : Type 0} (k : ℕ) (p : Reader E A) : Type 0 where
  pub moves :
      (bytes : Bytes) (offset : ℕ) (r : A) (offset' : ℕ)
      → p bytes offset ≡ ok (r, offset')
      → offset + k ≤ offset'

module _ {E A : Type 0} where
  pub Advances-pure : (a : A) → Advances {E = E} 0 (pure a)
  Advances-pure a = record { moves = λ bytes offset r o q. ground arith }

  pub Advances-lift : (r : Result E A) → Advances 0 (lift r)
  Advances-lift (ok a) = record { moves = λ bytes offset r o q. ground arith }
  Advances-lift (err e) = record { moves = λ bytes offset r o q. cc }
  Advances-lift stuck = record { moves = λ bytes offset r o q. cc }

  pub Advances-if :
      (b : Bool) {p q : Reader E A} → Advances 0 p → Advances 0 q → Advances 0 (if b then p else q)
  Advances-if true hp hq = hp
  Advances-if false hp hq = hq

module _ {E A B : Type 0} {p : Reader E A} (f : A → Reader E B) where
  -- The first step moves far enough, the rest does not go back.
  pub Advances-first : (k : ℕ) → Advances k p → ((a : A) → Advances 0 (f a)) → Advances k (p >>= f)
  unfolding ◌>>=◌
  Advances-first k g h = record {
    moves = λ bytes offset r o q.
        let ((a, o'), first, second) = bind-eq-ok (p bytes offset) _ q in
        omega (arith, g.moves bytes offset a o' first, (h a).moves bytes o' r o second);
  }

  pub Advances-later : (k : ℕ) → Advances 0 p → ((a : A) → Advances k (f a)) → Advances k (p >>= f)
  unfolding ◌>>=◌
  Advances-later k g h = record {
    moves = λ bytes offset r o q.
        let ((a, o'), first, second) = bind-eq-ok (p bytes offset) _ q in
        omega (arith, g.moves bytes offset a o' first, (h a).moves bytes o' r o second);
  }

pub Advances-many :
    {E A : Type 0} {p : Reader E A} (n : ℕ) → Advances 0 p → Advances 0 (read_many n p)
unfolding read_many
Advances-many zero g = Advances-pure []
Advances-many (suc n) g =
    Advances-first _ 0 g
      λ a. Advances-first _ 0 (Advances-many n g) λ items. Advances-pure (a ∷ items)

pub Advances-back : {E A : Type 0} {p : Reader E A} (k : ℕ) → Advances k p → Advances 0 p
Advances-back k g = record {
  moves = λ bytes offset r o q. omega (arith, g.moves bytes offset r o q);
}

module _ {E : Type 0} ⦃w : WireError E⦄ where
  pub Advances-bytes : (n : ℕ) → Advances {E = E} n (read_bytes n)
  Advances-bytes n = record {
    moves = λ bytes offset raw o q. omega (arith, read_bytes_inv n bytes offset q);
  }

  pub Advances-i32 : (e : Endian) → Advances {E = E} 4 (read_i32 e)
  unfolding read_i32
  Advances-i32 e = Advances-first _ 4 (Advances-bytes 4) λ raw. Advances-pure _

-- Each primitive goes forward.
module _ {E : Type 0} ⦃w : WireError E⦄ where
  pub Forward-bytes : (n : ℕ) → Advances {E = E} 0 (read_bytes n)
  Forward-bytes n = Advances-back n (Advances-bytes n)

  pub Forward-u8 : Advances {E = E} 0 read_u8
  unfolding read_u8
  Forward-u8 = Advances-first _ 0 (Forward-bytes 1) λ raw. Advances-pure _

  pub Forward-u16 : (e : Endian) → Advances {E = E} 0 (read_u16 e)
  unfolding read_u16
  Forward-u16 e = Advances-first _ 0 (Forward-bytes 2) λ raw. Advances-pure _

  pub Forward-i16 : (e : Endian) → Advances {E = E} 0 (read_i16 e)
  unfolding read_i16
  Forward-i16 e = Advances-first _ 0 (Forward-bytes 2) λ raw. Advances-pure _

  pub Forward-u32 : (e : Endian) → Advances {E = E} 0 (read_u32 e)
  unfolding read_u32
  Forward-u32 e = Advances-first _ 0 (Forward-bytes 4) λ raw. Advances-pure _

  pub Forward-i32 : (e : Endian) → Advances {E = E} 0 (read_i32 e)
  Forward-i32 e = Advances-back 4 (Advances-i32 e)

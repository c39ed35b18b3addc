-- ===== src/Crypto/DerivedKeys.antt =====
-- The keys that `AesSha1Etype` of src/crypto.rs derives have the size of its keys.
use rskrb.Prelude.{
  ℕ, zero, suc, ◌-◌, min, ◌≤◌, ◌≡◌, refl, Bool, true, false, [], ◌++◌, ltb, ◌==◌, if◌then◌else◌,
  length, take, arith, length-append, length-take,
}
use rskrb.Result.{Result, ok, Yields, yields, fails, stops, Yields-bind, Yields-ok}
use rskrb.Wire.{Bytes}
use rskrb.Crypto.{Error, Algorithms}
use rskrb.Crypto.Folding.{nfold}
use rskrb.Crypto.Sha1.{
  AesSha1Etype, key_len, validate_key, encrypt_data, derive_loop, derive_random, derive_key,
}

Yields-if :
    {A : Type 0} {P : A → Type 0} (b : Bool) {x y : Result Error A}
    → (b ≡ true → Yields P x)
    → (b ≡ false → Yields P y)
    → Yields P (if b then x else y)
Yields-if true h k = h refl
Yields-if false h k = k refl

module _ (algorithms : Algorithms) (etype : AesSha1Etype) where
  abbrev IsKey : Bytes → Type 0
  IsKey key = length key ≡ key_len etype

  derive_loop-IsKey :
      (fuel : ℕ) (protocol_key out block : Bytes)
      → length out ≤ key_len etype
      → Yields IsKey (derive_loop algorithms etype fuel protocol_key out block)
  unfolding derive_loop
  derive_loop-IsKey zero protocol_key out block h = stops
  derive_loop-IsKey (suc fuel) protocol_key out block h =
      let step = take (min (key_len etype - length out) (length block)) block in
      let size = length-append out step in
      let size' = length-take (min (key_len etype - length out) (length block)) block in
      Yields-if (ltb (length out) (key_len etype))
        (λ e.
          Yields-if (ltb (length (out ++ step)) (key_len etype))
            (λ e'. Yields-bind (encrypt_data algorithms etype protocol_key block) λ (_, next) _.
              derive_loop-IsKey fuel protocol_key (out ++ step) next
                (omega (arith, size, size', h)))
            (λ e'. yields (ground (arith, size, size', h))))
        (λ e. yields (ground arith))

  derive_random-IsKey :
      (protocol_key usage : Bytes)
      → Yields IsKey (derive_random algorithms etype protocol_key usage)
  unfolding derive_random
  derive_random-IsKey protocol_key usage =
      Yields-bind (validate_key algorithms etype protocol_key) λ _ _.
        Yields-if (length usage == 0) (λ _. fails)
          λ _. Yields-bind (nfold usage 128) λ folded _.
            Yields-bind (encrypt_data algorithms etype protocol_key folded)
              λ (_, block) _. derive_loop-IsKey 32 protocol_key [] block (omega arith)

  pub derive_key-IsKey :
      (protocol_key usage key : Bytes)
      → derive_key algorithms etype protocol_key usage ≡ ok key
      → length key ≡ key_len etype
  unfolding derive_key
  derive_key-IsKey protocol_key usage key e =
      Yields-ok
        (Yields-bind (validate_key algorithms etype protocol_key)
          (λ _ _. derive_random-IsKey protocol_key usage))
        e

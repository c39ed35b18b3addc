-- ===== src/Gss/Rotation.antt =====
-- `rotate_left` of src/spnego.rs takes `rotate_right` back.
use native.Mathlib.Nat.{mod-lt}
use rskrb.Prelude.{
  ℕ, zero, suc, ◌-◌, ◌%◌, ◌<◌, ◌≡◌, ◌≢◌, ◌⊎◌, inl, inr, refl, ap, ◌∙◌, List, [], ◌∷◌, ◌++◌, ◌==◌,
  length, take, drop, arith, take-append, drop-append, length-append, length-take, length-drop,
  Bool-cases,
}
use rskrb.Wire.{Bytes}
use rskrb.Gss.Wrap.{rotate_left, rotate_right}

pub take-drop : {A : Type 0} (n : ℕ) (xs : List A) → take n xs ++ drop n xs ≡ xs
take-drop zero xs = refl
take-drop (suc n) [] = refl
take-drop (suc n) (x ∷ xs) = ap (λ t. x ∷ t) (take-drop n xs)

pub length-rotate_right :
    (bytes : Bytes) (count : ℕ) → length (rotate_right bytes count) ≡ length bytes
unfolding rotate_right
length-rotate_right bytes count =
    let split = length bytes - count % length bytes in
    ground (
      arith,
      length-append (drop split bytes) (take split bytes),
      length-drop split bytes,
      length-take split bytes,
    )

-- Back where the parts meet.
swap_back :
    (xs ys : Bytes) (c : ℕ) → length ys ≡ c → drop c (ys ++ xs) ++ take c (ys ++ xs) ≡ xs ++ ys
swap_back xs ys c e = rw (← e, drop-append ys xs, take-append ys xs) refl

left_turn :
    (bytes : Bytes) (count c : ℕ)
    → length bytes ≢ 0
    → count % length bytes ≡ c
    → c ≢ 0
    → rotate_left bytes count ≡ drop c bytes ++ take c bytes
unfolding rotate_left
left_turn bytes count c h e k = rw e (ground arith)

right_turn :
    (bytes : Bytes) (count c : ℕ)
    → length bytes ≢ 0
    → count % length bytes ≡ c
    → c ≢ 0
    → rotate_right bytes count ≡ drop (length bytes - c) bytes ++ take (length bytes - c) bytes
unfolding rotate_right
right_turn bytes count c h e k = rw e (ground arith)

no_turn :
    (bytes : Bytes) (count : ℕ)
    → (length bytes ≡ 0) ⊎ (count % length bytes ≡ 0)
    → (rotate_right bytes count ≡ bytes) × (rotate_left bytes count ≡ bytes)
unfolding rotate_left rotate_right
no_turn [] count h = (refl, refl)
no_turn (byte ∷ bytes) count (inl h) = absurd (omega arith)
no_turn (byte ∷ bytes) count (inr h) = ground arith

turn_back :
    (bytes : Bytes) (count : ℕ)
    → length bytes ≢ 0
    → count % length bytes ≢ 0
    → rotate_left (rotate_right bytes count) count ≡ bytes
turn_back bytes count h k =
    let n = length bytes in
    let c = count % n in
    let split = n - c in
    let xs = take split bytes in
    let ys = drop split bytes in
    let small : c < n = mod-lt count (omega arith) in
    let size : length ys ≡ c = omega (arith, length-drop split bytes, small) in
    let whole : length (ys ++ xs) ≡ n =
      omega (arith, length-append ys xs, size, length-take split bytes, small) in
    ap (λ (t : Bytes). rotate_left t count) (right_turn bytes count c h refl k)
    ∙ (left_turn (ys ++ xs) count c (omega (arith, whole)) (ap (λ (t : ℕ). count % t) whole) k
        ∙ (swap_back xs ys c size ∙ take-drop split bytes))

pub rotate_left-rotate_right :
    (bytes : Bytes) (count : ℕ) → rotate_left (rotate_right bytes count) count ≡ bytes
rotate_left-rotate_right bytes count = elim (Bool-cases (length bytes == 0)) [
  | inl e ↦ no_turn_back (inl (ground arith))
  | inr e ↦ elim (Bool-cases (count % length bytes == 0)) [
    | inl f ↦ no_turn_back (inr (ground arith))
    | inr f ↦ turn_back bytes count (ground arith) (ground arith)
  ]
]
  where
    no_turn_back :
        (length bytes ≡ 0) ⊎ (count % length bytes ≡ 0)
        → rotate_left (rotate_right bytes count) count ≡ bytes
    no_turn_back h = let (right, left) = no_turn bytes count h in rw (right, left) refl

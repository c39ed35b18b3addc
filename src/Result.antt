-- ===== src/Result.antt =====
-- `Result<T, E>` of the source, for any error type, with `?` as the bind of a `do` block.
use mathlib.Core.Path.{subst}
use rskrb.Prelude.{◌≡◌, ◌≢◌, ◌⊎◌, inl, inr, refl, Bool, true, false, if◌then◌else◌}

-- `stuck` is no Rust value: a loop of the model used up its fuel.
pub data Result {ℓ κ} (E : Type ℓ) (A : Type κ) : Type (ℓ ⊔ κ) where
  ok : A → Result E A
  err : E → Result E A
  stuck : Result E A

abbrev pub bind {ℓ κ ι} :
    {E : Type ℓ} {A : Type κ} {B : Type ι} → Result E A → (A → Result E B) → Result E B
bind (ok a) f = f a
bind (err e) f = err e
bind stuck f = stuck

abbrev pub map_err {ℓ ℓ' κ} :
    {E : Type ℓ} {F : Type ℓ'} {A : Type κ} → (E → F) → Result E A → Result F A
map_err g (ok a) = ok a
map_err g (err e) = err (g e)
map_err g stuck = stuck

pub bind_assoc {ℓ κ ι μ} :
    {E : Type ℓ} {A : Type κ} {B : Type ι} {C : Type μ} (m : Result E A) (f : A → Result E B)
    (g : B → Result E C)
    → bind (bind m f) g ≡ bind m (λ a. bind (f a) g)
bind_assoc (ok a) f g = refl
bind_assoc (err e) f g = refl
bind_assoc stuck f g = refl

-- Inversion of a successful bind.
pub bind-eq-ok {ℓ κ ι} :
    {E : Type ℓ} {A : Type κ} {B : Type ι} (m : Result E A) (f : A → Result E B) {b : B}
    → bind m f ≡ ok b
    → (a : A) × (m ≡ ok a) × (f a ≡ ok b)
bind-eq-ok (ok a) f h = (a, refl, h)
bind-eq-ok (err e) f h = cc
bind-eq-ok stuck f h = cc

-- The run kept within its fuel, and `P` holds of its value if it has one.
pub data Ensures {ℓ κ ι} {E : Type ℓ} {A : Type κ} (P : A → Type ι)
    : Result E A → Type (ℓ ⊔ κ ⊔ ι) where
  holds : {a : A} → P a → Ensures P (ok a)
  rejected : {e : E} → Ensures P (err e)

module _ {ℓ κ ι} {E : Type ℓ} {A : Type κ} {P : A → Type ι} where
  pub Ensures-ok : {r : Result E A} {a : A} → Ensures P r → r ≡ ok a → P a
  Ensures-ok (holds h) e = subst P (cc) h
  Ensures-ok rejected e = cc

  pub Ensures-ne-stuck : {r : Result E A} → Ensures P r → r ≢ stuck
  Ensures-ne-stuck (holds h) = cc
  Ensures-ne-stuck rejected = cc

  pub Ensures-map {κ'} :
      {Q : A → Type κ'} {r : Result E A} → ((a : A) → P a → Q a) → Ensures P r → Ensures Q r
  Ensures-map f (holds h) = holds (f _ h)
  Ensures-map f rejected = rejected

  pub Ensures-bind {ℓ' κ'} :
      {B : Type ℓ'} {Q : B → Type κ'} {r : Result E A} (f : A → Result E B)
      → Ensures P r
      → ((a : A) → P a → Ensures Q (f a))
      → Ensures Q (bind r f)
  Ensures-bind f (holds {a} h) k = k a h
  Ensures-bind f rejected k = rejected

  pub Ensures-if :
      (b : Bool) {x y : Result E A}
      → (b ≡ true → Ensures P x)
      → (b ≡ false → Ensures P y)
      → Ensures P (if b then x else y)
  Ensures-if true hx hy = hx refl
  Ensures-if false hx hy = hy refl

pub map_err-eq-ok {ℓ ℓ' κ} :
    {E : Type ℓ} {F : Type ℓ'} {A : Type κ} (g : E → F) (m : Result E A) {a : A}
    → map_err g m ≡ ok a
    → m ≡ ok a
map_err-eq-ok g (ok a) h = cc
map_err-eq-ok g (err e) h = cc
map_err-eq-ok g stuck h = cc

-- `P` holds of the value of the run, if it has one.
pub data Yields {ℓ κ ι} {E : Type ℓ} {A : Type κ} (P : A → Type ι)
    : Result E A → Type (ℓ ⊔ κ ⊔ ι) where
  yields : {a : A} → P a → Yields P (ok a)
  fails : {e : E} → Yields P (err e)
  stops : Yields P stuck

module _ {ℓ κ ι} {E : Type ℓ} {A : Type κ} {P : A → Type ι} where
  pub Yields-ok : {r : Result E A} {a : A} → Yields P r → r ≡ ok a → P a
  Yields-ok (yields h) e = subst P (cc) h
  Yields-ok fails e = cc
  Yields-ok stops e = cc

  pub Yields-bind {κ'} :
      {B : Type κ'} (m : Result E B) {f : B → Result E A}
      → ((b : B) → m ≡ ok b → Yields P (f b))
      → Yields P (bind m f)
  Yields-bind (ok b) k = k b refl
  Yields-bind (err e) k = fails
  Yields-bind stuck k = stops

  pub Yields-guard :
      (b : Bool) (e : E) {r : Result E A}
      → (b ≡ false → Yields P r)
      → Yields P (if b then err e else r)
  Yields-guard true e k = fails
  Yields-guard false e k = k refl

pub Result-cases {ℓ κ} :
    {E : Type ℓ} {A : Type κ} (r : Result E A)
    → ((a : A) × (r ≡ ok a)) ⊎ ((e : E) × (r ≡ err e)) ⊎ (r ≡ stuck)
Result-cases (ok a) = inl (a, refl)
Result-cases (err e) = inr (inl (e, refl))
Result-cases stuck = inr (inr refl)

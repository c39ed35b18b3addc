-- ===== src/Keytab/Names.antt =====
-- The texts of a principal of src/keytab.rs: `Principal::from_name`, `name_string`,
-- `principal_string` and `default_password_salt`.
use rskrb.Prelude.{
  ℕ, ◌≡◌, ◌≢◌, refl, Bool, true, false, ◌||◌, List, [], ◌∷◌, ◌++◌, if◌then◌else◌, All,
}
use rskrb.Prelude.Int.{ℤ}
use rskrb.Prelude.Text.{split, join, join-split, split-IsFree, split-join, IsFree}
use rskrb.Result.{Result, ok, err, Ensures, holds, rejected, Ensures-if, Ensures-ok}
use rskrb.Wire.{Bytes}
use rskrb.Keytab.{Error, invalid_principal_name, Principal}

abbrev pub slash : ℕ
slash = b'/'

unfoldable pub is_empty : Bytes → Bool
is_empty [] = true
is_empty (c ∷ cs) = false

unfoldable pub any_empty : List Bytes → Bool
unfolding is_empty
any_empty [] = false
any_empty (c ∷ cs) = is_empty c || any_empty cs

unfoldable pub from_name : Bytes → ℤ → Bytes → Result Error Principal
unfolding any_empty is_empty
from_name realm name_type principal_name =
    if is_empty principal_name
    then err invalid_principal_name
    else let components = split slash principal_name in
      if any_empty components
      then err invalid_principal_name
      else ok (record { realm = realm; components = components; name_type = name_type })

unfoldable pub name_string : Principal → Bytes
name_string p = join slash p.components

-- `format!("{}@{}", ..)`
unfoldable pub principal_string : Principal → Bytes
unfolding name_string
principal_string p = name_string p ++ b'@' ∷ p.realm

push_all : Bytes → List Bytes → Bytes
push_all salt [] = salt
push_all salt (c ∷ cs) = push_all (salt ++ c) cs

unfoldable pub default_password_salt : Principal → Bytes
unfolding push_all
default_password_salt p = push_all p.realm p.components

-- A component that a name can hold: not empty, with no `/`.
abbrev pub IsComponent : Bytes → Type 0
IsComponent c = (c ≢ []) × IsFree slash c

components-valid :
    (cs : List Bytes) → any_empty cs ≡ false → All (IsFree slash) cs → All IsComponent cs
unfolding any_empty
components-valid [] h hs = tt
components-valid ([] ∷ cs) h (f, fs) = cc
components-valid ((x ∷ c) ∷ cs) h (f, fs) = (((λ e. cc), f), components-valid cs h fs)

any_empty-components : (cs : List Bytes) → All IsComponent cs → any_empty cs ≡ false
unfolding any_empty
any_empty-components [] h = refl
any_empty-components ([] ∷ cs) ((ne, f), hs) = absurd (ne refl)
any_empty-components ((x ∷ c) ∷ cs) (h, hs) = any_empty-components cs hs

from_name-Ensures :
    (realm : Bytes) (name_type : ℤ) (name : Bytes)
    → Ensures
        (λ p.
          (name_string p ≡ name)
          × All IsComponent p.components
          × (p.realm ≡ realm)
          × (p.name_type ≡ name_type))
        (from_name realm name_type name)
unfolding from_name name_string
from_name-Ensures realm name_type name =
    Ensures-if (is_empty name) (λ _. rejected)
      λ _.
        Ensures-if (any_empty (split slash name)) (λ _. rejected)
          λ e. holds (
            join-split slash name,
            components-valid (split slash name) e (split-IsFree slash name),
            refl,
            refl,
          )

-- A name that is accepted is split into components that are not empty and hold no `/`; joined they
-- give the name back, and realm and name type are kept.
pub name_string-from_name :
    (realm : Bytes) (name_type : ℤ) (name : Bytes) {p : Principal}
    → from_name realm name_type name ≡ ok p
    → (name_string p ≡ name)
      × All IsComponent p.components
      × (p.realm ≡ realm)
      × (p.name_type ≡ name_type)
name_string-from_name realm name_type name h = Ensures-ok (from_name-Ensures realm name_type name) h

is_empty-join : (c : Bytes) (cs : List Bytes) → c ≢ [] → is_empty (join slash (c ∷ cs)) ≡ false
unfolding join is_empty
is_empty-join [] cs h = absurd (h refl)
is_empty-join (x ∷ c) [] h = refl
is_empty-join (x ∷ c) (d ∷ cs) h = refl

frees : (cs : List Bytes) → All IsComponent cs → All (IsFree slash) cs
frees [] h = tt
frees (c ∷ cs) ((_, f), hs) = (f, frees cs hs)

-- The other way round: the components of a principal come back from its name, if there is one at
-- least, none is empty and none holds a `/`.
pub from_name-name_string :
    (realm : Bytes) (name_type : ℤ) (c : Bytes) (cs : List Bytes)
    → All IsComponent (c ∷ cs)
    → from_name realm name_type
        (name_string (record { realm = realm; components = c ∷ cs; name_type = name_type }))
      ≡ ok (record { realm = realm; components = c ∷ cs; name_type = name_type })
unfolding from_name name_string
from_name-name_string realm name_type c cs h = rw (
  is_empty-join c cs h.0.0,
  split-join slash c cs (frees (c ∷ cs) h),
  any_empty-components (c ∷ cs) h,
)

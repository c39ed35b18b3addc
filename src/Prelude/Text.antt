-- ===== src/Prelude/Text.antt =====
-- The functions of `str` and of slices that the source calls, on texts as lists of bytes.
use Prim.Native.Nat.{ℕ}
use Prim.Native.Char.{code}
use Prim.Native.String.{String}
use mathlib.Core.Path.{◌≡◌, refl, ap, ◌∙◌}
use mathlib.Core.Logic.{◌↔◌, ◌≢◌, inl, inr}
use mathlib.Core.Bool.{Bool, true, ◌&&◌, false}
use mathlib.Core.List.{List, [], ◌∷◌, ◌++◌}
use mathlib.Core.Option.{Option, none, some}
use native.Mathlib.Omega.{arith}
use rskrb.Prelude.Tests.{◌==◌, ==_iff, Bool-cases, if◌then◌else◌}
use rskrb.Prelude.Lists.{length, All, list_eq, list_eq_iff}

-- `a == b` on texts, and on lists of texts.
unfoldable pub text_eq : List ℕ → List ℕ → Bool
unfolding list_eq
text_eq = list_eq ◌==◌

pub text_eq_iff : (a b : List ℕ) → (text_eq a b ≡ true) ↔ (a ≡ b)
unfolding text_eq
text_eq_iff = list_eq_iff ◌==◌ ==_iff

unfoldable pub texts_eq : List (List ℕ) → List (List ℕ) → Bool
unfolding text_eq list_eq
texts_eq = list_eq text_eq

pub texts_eq_iff : (a b : List (List ℕ)) → (texts_eq a b ≡ true) ↔ (a ≡ b)
unfolding texts_eq
texts_eq_iff = list_eq_iff text_eq text_eq_iff

-- `left.len() == right.len() && left.iter().zip(right).all(|(l, r)| l == r)`
unfoldable pub zip_all_eq : List (List ℕ) → List (List ℕ) → Bool
unfolding text_eq
zip_all_eq [] right = true
zip_all_eq (x ∷ left) [] = true
zip_all_eq (x ∷ left) (y ∷ right) = text_eq x y && zip_all_eq left right

unfoldable pub same_components : List (List ℕ) → List (List ℕ) → Bool
unfolding zip_all_eq
same_components left right = length left == length right && zip_all_eq left right

pub same_components_iff :
    (left right : List (List ℕ)) → (same_components left right ≡ true) ↔ (left ≡ right)
unfolding same_components
same_components_iff [] [] = (λ _. refl, λ _. refl)
same_components_iff [] (y ∷ right) = ground arith
same_components_iff (x ∷ left) [] = ground arith
same_components_iff (x ∷ left) (y ∷ right) =
    ground (arith, text_eq_iff x y, same_components_iff left right)

-- `a == b` on optional texts.
unfoldable pub option_text_eq : Option (List ℕ) → Option (List ℕ) → Bool
unfolding text_eq
option_text_eq none none = true
option_text_eq (some a) (some b) = text_eq a b
option_text_eq _ _ = false

pub option_text_eq_iff : (a b : Option (List ℕ)) → (option_text_eq a b ≡ true) ↔ (a ≡ b)
unfolding option_text_eq
option_text_eq_iff none none = (λ _. refl, λ _. refl)
option_text_eq_iff none (some b) = (λ e. cc, λ e. cc)
option_text_eq_iff (some a) none = (λ e. cc, λ e. cc)
option_text_eq_iff (some a) (some b) = ground (arith, text_eq_iff a b)

-- The bytes of an ASCII literal.
abbrev pub codes : String → List ℕ
codes String.[] = []
codes (String.◌∷◌ c s) = code c ∷ codes s

-- `text.split(sep)`: the pieces between the separators, one at least.
abbrev prepend : ℕ → List (List ℕ) → List (List ℕ)
prepend c [] = (c ∷ []) ∷ []
prepend c (piece ∷ pieces) = (c ∷ piece) ∷ pieces

unfoldable pub split : ℕ → List ℕ → List (List ℕ)
split sep [] = [] ∷ []
split sep (c ∷ cs) = let pieces = split sep cs in if c == sep then [] ∷ pieces else prepend c pieces

-- `pieces.join(sep)`
unfoldable pub join : ℕ → List (List ℕ) → List ℕ
join sep [] = []
join sep (piece ∷ []) = piece
join sep (piece ∷ next ∷ pieces) = piece ++ sep ∷ join sep (next ∷ pieces)

split-nonempty : (sep : ℕ) (s : List ℕ) → split sep s ≢ []
unfolding split
split-nonempty sep [] e = cc
split-nonempty sep (c ∷ cs) e = ground (arith, split-nonempty sep cs)

join-prepend :
    (sep c : ℕ) (ps : List (List ℕ)) → ps ≢ [] → join sep (prepend c ps) ≡ c ∷ join sep ps
unfolding join
join-prepend sep c [] h = absurd (h refl)
join-prepend sep c (p ∷ []) h = refl
join-prepend sep c (p ∷ q ∷ ps) h = refl

join-empty : (sep : ℕ) (ps : List (List ℕ)) → ps ≢ [] → join sep ([] ∷ ps) ≡ sep ∷ join sep ps
unfolding join
join-empty sep [] h = absurd (h refl)
join-empty sep (p ∷ ps) h = refl

pub join-split : (sep : ℕ) (s : List ℕ) → join sep (split sep s) ≡ s
unfolding split
join-split sep [] = unfold join in refl
join-split sep (c ∷ cs) = ground (
  arith,
  join-split sep cs,
  split-nonempty sep cs,
  join-prepend sep c (split sep cs) (split-nonempty sep cs),
  join-empty sep (split sep cs) (split-nonempty sep cs),
)

-- No piece holds the separator.
abbrev pub IsFree : ℕ → List ℕ → Type 0
IsFree sep s = All (λ c. c ≢ sep) s

All-IsFree-prepend :
    (sep c : ℕ) (ps : List (List ℕ))
    → c ≢ sep
    → All (IsFree sep) ps
    → All (IsFree sep) (prepend c ps)
All-IsFree-prepend sep c [] h hs = ((h, tt), tt)
All-IsFree-prepend sep c (p ∷ ps) h (hp, hs) = ((h, hp), hs)

pub split-IsFree : (sep : ℕ) (s : List ℕ) → All (IsFree sep) (split sep s)
unfolding split
split-IsFree sep [] = (tt, tt)
split-IsFree sep (c ∷ cs) = elim (Bool-cases (c == sep)) [
  | inl same ↦ rw same (tt, split-IsFree sep cs)
  | inr other ↦
      rw other (All-IsFree-prepend sep c (split sep cs) (ground arith) (split-IsFree sep cs))
]

split-free : (sep : ℕ) (s : List ℕ) → IsFree sep s → split sep s ≡ s ∷ []
unfolding split
split-free sep [] h = refl
split-free sep (c ∷ cs) (h, hs) = ground (arith, split-free sep cs hs, h)

split-append : (sep : ℕ) (s t : List ℕ) → IsFree sep s → split sep (s ++ sep ∷ t) ≡ s ∷ split sep t
unfolding split
split-append sep [] t h = ground arith
split-append sep (c ∷ cs) t (h, hs) = ground (arith, split-append sep cs t hs, h)

pub split-join :
    (sep : ℕ) (p : List ℕ) (ps : List (List ℕ))
    → All (IsFree sep) (p ∷ ps)
    → split sep (join sep (p ∷ ps)) ≡ p ∷ ps
unfolding join
split-join sep p [] (h, hs) = split-free sep p h
split-join sep p (q ∷ ps) (h, hs) =
    split-append sep p (join sep (q ∷ ps)) h ∙ ap (λ t. p ∷ t) (split-join sep q ps hs)

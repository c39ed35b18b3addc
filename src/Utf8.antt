-- ===== src/Utf8.antt =====
-- `std::str::from_utf8`, which src/keytab.rs and src/ccache.rs call: a `String` is a list of bytes
-- that is well-formed UTF-8, by the byte ranges of the Unicode standard.
use rskrb.Prelude.{
  ℕ, ◌<◌, ◌≡◌, refl, Bool, true, false, ◌&&◌, List, [], ◌∷◌, Option, none, some, arith, ltb, leb,
  if◌then◌else◌, All,
}

-- What the bytes read so far ask of the next one.
pub data Utf8State : Type 0 where
  start last_one last_two last_three : Utf8State
  after_e0 after_ed after_f0 after_f4 : Utf8State

abbrev between : ℕ → ℕ → ℕ → Bool
between lo hi b = leb lo b && leb b hi

-- The state after a leading byte.
utf8_lead : ℕ → Option Utf8State
utf8_lead b =
    if ltb b 0x80
    then some start
    else if between 0xc2 0xdf b
    then some last_one
    else if between 0xe0 0xe0 b
    then some after_e0
    else if between 0xed 0xed b
    then some after_ed
    else if between 0xe1 0xef b
    then some last_two
    else if between 0xf0 0xf0 b
    then some after_f0
    else if between 0xf1 0xf3 b
    then some last_three
    else if between 0xf4 0xf4 b
    then some after_f4
    else none

utf8_step : Utf8State → ℕ → Option Utf8State
unfolding utf8_lead
utf8_step start b = utf8_lead b
utf8_step last_one b = if between 0x80 0xbf b then some start else none
utf8_step last_two b = if between 0x80 0xbf b then some last_one else none
utf8_step last_three b = if between 0x80 0xbf b then some last_two else none
utf8_step after_e0 b = if between 0xa0 0xbf b then some last_one else none
utf8_step after_ed b = if between 0x80 0x9f b then some last_one else none
utf8_step after_f0 b = if between 0x90 0xbf b then some last_two else none
utf8_step after_f4 b = if between 0x80 0x8f b then some last_two else none

utf8_run : Utf8State → List ℕ → Bool
unfolding utf8_step
utf8_run start [] = true
utf8_run _ [] = false
utf8_run s (b ∷ bs) = elim (utf8_step s b) [ none ↦ false | some t ↦ utf8_run t bs ]

unfoldable pub is_utf8 : List ℕ → Bool
unfolding utf8_run
is_utf8 bs = utf8_run start bs

-- A text whose bytes are ASCII is well formed.
pub is_utf8-ascii : (bs : List ℕ) → All (λ b. b < 128) bs → is_utf8 bs ≡ true
unfolding is_utf8
is_utf8-ascii [] h = refl
is_utf8-ascii (b ∷ bs) (h, hs) = ground (arith, is_utf8-ascii bs hs)

-- "é" is two bytes, a surrogate is refused, and so is an overlong form.
is_utf8_two_bytes : is_utf8 (0xc3 ∷ 0xa9 ∷ []) ≡ true
unfolding is_utf8
is_utf8_two_bytes = refl

is_utf8_surrogate : is_utf8 (0xed ∷ 0xa0 ∷ 0x80 ∷ []) ≡ false
unfolding is_utf8
is_utf8_surrogate = refl

is_utf8_overlong : is_utf8 (0xc0 ∷ 0x80 ∷ []) ≡ false
unfolding is_utf8
is_utf8_overlong = refl

-- ===== src/Tests.antt =====
-- Runs of the definitions at concrete inputs, and the theorems applied to such inputs.
mod KeytabFile
mod CacheFile
mod Validation
mod SpnegoTokens
mod GssTokens
mod Replies
mod Ciphers
use rskrb.Prelude.{ℕ, ◌≡◌, Bool, true, false, ◌&&◌, List, [], ◌∷◌, All, arith, ltb}
use rskrb.Wire.{Bytes}
use rskrb.Wire.Range.{IsByte}

abbrev pub all_below_256 : Bytes → Bool
all_below_256 [] = true
all_below_256 (b ∷ bytes) = ltb b 256 && all_below_256 bytes

pub all_below_256-IsByte : (bytes : Bytes) → all_below_256 bytes ≡ true → All IsByte bytes
all_below_256-IsByte [] h = tt
all_below_256-IsByte (b ∷ bytes) h = (ground arith, all_below_256-IsByte bytes (ground arith))

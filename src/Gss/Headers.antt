-- ===== src/Gss/Headers.antt =====
-- The headers of the tokens of src/spnego.rs and what is read back from them.
use rskrb.Prelude.{ℕ, ◌+◌, ◌/◌, ◌%◌, ◌^◌, ◌<◌, ◌≡◌, refl, ◌++◌, length, take, drop, arith}
use rskrb.Wire.{Bytes, big, from_bytes16}
use rskrb.Der.{big_endian}
use rskrb.Spnego.Writer.{be_bytes}
use rskrb.Spnego.Values.{big_endian-be_bytes}

-- Eight bytes, and what stands behind them.
pub take-be_bytes : (n : ℕ) (rest : Bytes) → take 8 (be_bytes 8 n ++ rest) ≡ be_bytes 8 n
unfolding be_bytes
take-be_bytes n rest = refl

pub drop-be_bytes : (n : ℕ) (rest : Bytes) → drop 8 (be_bytes 8 n ++ rest) ≡ rest
unfolding be_bytes
drop-be_bytes n rest = refl

pub length-be_bytes-append :
    (n : ℕ) (rest : Bytes) → length (be_bytes 8 n ++ rest) ≡ 8 + length rest
unfolding be_bytes
length-be_bytes-append n rest = omega arith

pub big_endian-seq_num : (n : ℕ) → n < 2 ^ 64 → big_endian 0 (be_bytes 8 n) ≡ n
big_endian-seq_num n h = big_endian-be_bytes 8 n (omega arith)

pub from_bytes16-to_bytes16 : (n : ℕ) → n < 2 ^ 16 → from_bytes16 big (n / 256 % 256) (n % 256) ≡ n
from_bytes16-to_bytes16 n h = omega arith

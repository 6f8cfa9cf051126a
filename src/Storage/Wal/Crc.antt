-- ===== src/Storage/Wal/Crc.antt =====
-- `crc32` of wal.rs, bit by bit.
use Prim.Native.Nat.{bit_and, bit_xor}
use alefsdb.Prelude.{ℕ, zero, suc, ◌≡◌, ◌<◌, ◌-◌, ◌/◌, ◌%◌, ◌^◌, refl, [], ◌∷◌, arith}
use alefsdb.Bytes.{Bytes, text}

-- `(crc & 1).wrapping_neg()`
unfoldable pub wrapping_neg : ℕ → ℕ
wrapping_neg x = (2 ^ 32 - x) % 2 ^ 32

unfoldable pub crc_round : ℕ → ℕ
unfolding wrapping_neg
crc_round crc =
    let mask = wrapping_neg (bit_and crc 1) in bit_xor (crc / 2) (bit_and 0xEDB88320 mask)

-- `for _ in 0..n`
unfoldable pub crc_rounds : ℕ → ℕ → ℕ
unfolding crc_round
crc_rounds zero crc = crc
crc_rounds (suc n) crc = crc_rounds n (crc_round crc)

unfoldable pub crc_bytes : ℕ → Bytes → ℕ
unfolding crc_rounds
crc_bytes crc [] = crc
crc_bytes crc (b ∷ data') = crc_bytes (crc_rounds 8 (bit_xor crc b)) data'

unfoldable pub crc32 : Bytes → ℕ
unfolding crc_bytes
crc32 bytes = 0xffff_ffff - crc_bytes 0xffff_ffff bytes

pub crc32-lt : (bytes : Bytes) → crc32 bytes < 2 ^ 32
unfolding crc32
crc32-lt bytes = omega arith

-- The check value of CRC-32 (IEEE).
crc32_check : crc32 (text "123456789") ≡ 0xcbf43926
unfolding crc32 text
crc32_check = refl

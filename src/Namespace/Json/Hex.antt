-- ===== src/Namespace/Json/Hex.antt =====
-- `hex::encode_bytes` and `hex::decode_bytes`.
use alefsdb.Prelude.{
  ℕ, ◌+◌, ◌-◌, ◌*◌, ◌/◌, ◌%◌, ◌<◌, ◌≡◌, ◌==◌, refl, ◌&&◌, [], ◌∷◌, Result, ok, err, ◌>>=◌, leb, ltb,
  length, if◌then◌else◌, arith, All,
}
use alefsdb.Bytes.{Bytes}
use alefsdb.Namespace.Json.{HexError, odd_hex_length, bad_hex}

-- `HEX[x]`
unfoldable pub hex_digit : ℕ → ℕ
hex_digit x = if ltb x 10 then b'0' + x else b'a' + (x - 10)

unfoldable pub encode_bytes : Bytes → Bytes
encode_bytes [] = []
encode_bytes (x ∷ xs) = hex_digit (x / 16) ∷ hex_digit (x % 16) ∷ encode_bytes xs

unfoldable pub from_hex : ℕ → Result HexError ℕ
from_hex c =
    if leb b'0' c && leb c b'9'
    then ok (c - b'0')
    else if leb b'a' c && leb c b'f'
    then ok (c - b'a' + 10)
    else if leb b'A' c && leb c b'F'
    then ok (c - b'A' + 10)
    else err bad_hex

-- The loop over the pairs, of which `decode_bytes` has whole ones only.
unfoldable pub decode_pairs : Bytes → Result HexError Bytes
decode_pairs [] = ok []
decode_pairs (h ∷ []) = err bad_hex
decode_pairs (h ∷ l ∷ rest) = do
  hi ← from_hex h
  lo ← from_hex l
  out ← decode_pairs rest
  ok ((hi * 16 + lo) ∷ out)

unfoldable pub decode_bytes : Bytes → Result HexError Bytes
decode_bytes s = if length s % 2 == 0 then decode_pairs s else err odd_hex_length

from_hex-hex_digit : (x : ℕ) → x < 16 → from_hex (hex_digit x) ≡ ok x
unfolding from_hex hex_digit
from_hex-hex_digit x h = ground arith

decode_pairs-encode_bytes :
    (bs : Bytes) → All (λ b. b < 256) bs → decode_pairs (encode_bytes bs) ≡ ok bs
unfolding decode_pairs encode_bytes
decode_pairs-encode_bytes [] h = refl
decode_pairs-encode_bytes (b ∷ bs) (l, h) =
    rw
      (
        from_hex-hex_digit (b / 16) (omega arith),
        from_hex-hex_digit (b % 16) (omega arith),
        decode_pairs-encode_bytes bs h,
      )
      (let e : b / 16 * 16 + b % 16 ≡ b = omega arith in rw e refl)

even-encode_bytes : (bs : Bytes) → length (encode_bytes bs) % 2 ≡ 0
unfolding encode_bytes
even-encode_bytes [] = refl
even-encode_bytes (b ∷ bs) = omega (arith, even-encode_bytes bs)

-- Bytes are read back from their hexadecimal text.
pub decode_bytes-encode_bytes :
    (bs : Bytes) → All (λ b. b < 256) bs → decode_bytes (encode_bytes bs) ≡ ok bs
unfolding decode_bytes
decode_bytes-encode_bytes bs h = rw (even-encode_bytes bs) (decode_pairs-encode_bytes bs h)

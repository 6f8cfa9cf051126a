-- ===== src/Bytes/Decimal.antt =====
-- `str::parse::<i64>` and `to_string` of the integers.
pub mod RoundTrip
use alefsdb.Prelude.{
  ℕ, zero, suc, ◌+◌, ◌-◌, ◌*◌, ◌/◌, ◌%◌, ◌^◌, ◌<◌, ◌==◌, Bool, true, false, ◌&&◌, Option, none,
  some, [], ◌∷◌, leb, ltb, if◌then◌else◌,
}
use alefsdb.Prelude.Order.{ℤ, pos, negsuc}
use alefsdb.Bytes.{Bytes}

abbrev pub is_digit : ℕ → Bool
is_digit b = leb b'0' b && leb b b'9'

unfoldable pub digits : ℕ → Bytes → Option ℕ
digits acc [] = some acc
digits acc (b ∷ bs) =
    let rest = digits (acc * 10 + (b - b'0')) bs in if is_digit b then rest else none

unfoldable pub number : Bytes → Option ℕ
number [] = none
number (b ∷ bs) = digits 0 (b ∷ bs)

abbrev pub negate : ℕ → ℤ
negate zero = pos 0
negate (suc n) = negsuc n

-- A number within a bound.
abbrev pub below : ℕ → Option ℕ → Option ℕ
below bound none = none
below bound (some n) = if ltb n bound then some n else none

abbrev pub negated : Option ℕ → Option ℤ
negated none = none
negated (some n) = some (negate n)

abbrev pub positive : Option ℕ → Option ℤ
positive none = none
positive (some n) = some (pos n)

-- A sign, digits, and the bounds of the type.
unfoldable pub parse_i64 : Bytes → Option ℤ
parse_i64 [] = none
parse_i64 (b ∷ bs) =
    if b == b'-'
    then negated (below (2 ^ 63 + 1) (number bs))
    else positive (below (2 ^ 63) (number (if b == b'+' then bs else b ∷ bs)))

-- The digits of a number in front of `out`, on fuel: a round drops one.
unfoldable pub emit : ℕ → ℕ → Bytes → Bytes
emit zero n out = out
emit (suc f) n out =
    let rest = emit f (n / 10) ((b'0' + n % 10) ∷ out) in if n == 0 then out else rest

unfoldable pub show_nat : ℕ → Bytes
show_nat n = if n == 0 then b'0' ∷ [] else emit n n []

unfoldable pub show_i64 : ℤ → Bytes
show_i64 (pos n) = show_nat n
show_i64 (negsuc n) = b'-' ∷ show_nat (suc n)

-- The bounds of an `i64`.
abbrev pub IsI64 : ℤ → Type 0
IsI64 (pos n) = n < 2 ^ 63
IsI64 (negsuc n) = n < 2 ^ 63

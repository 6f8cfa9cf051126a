-- ===== src/Bytes/Text.antt =====
-- Texts as bytes. A Rust `String` is a list of bytes that `from_utf8` accepts.
use Prim.Native.Char.{code}
use alefsdb.Prelude.{
  ℕ, String, zero, suc, ◌≡◌, ◌≤◌, All, ◌↔◌, refl, Bool, true, false, ◌&&◌, List, [], ◌∷◌, ◌++◌,
  arith, leb, ◌==◌, ==_refl, if◌then◌else◌,
}
use alefsdb.Prelude.Order.{Ord, list_ord, nat_ord}

abbrev pub Bytes : Type 0
Bytes = List ℕ

-- The order of `Vec<u8>` and of `String`.
abbrev pub bytes_ord : Ord Bytes
bytes_ord = list_ord

-- The bytes of an ASCII literal of the source.
unfoldable pub text : String → Bytes
text String.[] = []
text (String.◌∷◌ c s) = code c ∷ text s

-- What the next byte may be: `plain` between characters, and otherwise the range that is still to
-- come, with the number of continuation bytes behind it.
pub data Utf8State : Type 0 where
  plain : Utf8State
  expect : ℕ → ℕ → ℕ → Utf8State
  bad : Utf8State

abbrev lead : ℕ → Utf8State
lead b =
    if leb b 0x7f
    then plain
    else if leb 0xc2 b && leb b 0xdf
    then expect 0x80 0xbf 0
    else if b == 0xe0
    then expect 0xa0 0xbf 1
    else if b == 0xed
    then expect 0x80 0x9f 1
    else if leb 0xe1 b && leb b 0xef
    then expect 0x80 0xbf 1
    else if b == 0xf0
    then expect 0x90 0xbf 2
    else if b == 0xf4
    then expect 0x80 0x8f 2
    else if leb 0xf1 b && leb b 0xf3
    then expect 0x80 0xbf 2
    else bad

abbrev utf8_step : Utf8State → ℕ → Utf8State
utf8_step plain b = lead b
utf8_step (expect lo hi zero) b = if leb lo b && leb b hi then plain else bad
utf8_step (expect lo hi (suc n)) b = if leb lo b && leb b hi then expect 0x80 0xbf n else bad
utf8_step bad b = bad

utf8_ends : Utf8State → Bytes → Bool
utf8_ends plain [] = true
utf8_ends (expect lo hi n) [] = false
utf8_ends bad [] = false
utf8_ends s (b ∷ bs) = utf8_ends (utf8_step s b) bs

-- `std::str::from_utf8(bytes).is_ok()`: one to four bytes for a character, the shortest form only,
-- no surrogate and nothing above U+10FFFF.
unfoldable pub valid_utf8 : Bytes → Bool
unfolding utf8_ends
valid_utf8 bs = utf8_ends plain bs

-- ASCII is UTF-8.
pub valid_utf8-ascii : (bs : Bytes) → All (λ b. b ≤ 0x7f) bs → valid_utf8 bs ≡ true
unfolding valid_utf8 utf8_ends
valid_utf8-ascii [] h = refl
valid_utf8-ascii (b ∷ bs) h =
    let e : leb b 0x7f ≡ true = ground (arith, h.0) in rw e (valid_utf8-ascii bs h.1)

-- `a == b` on byte strings.
unfoldable pub same : Bytes → Bytes → Bool
same [] [] = true
same [] (b ∷ bs) = false
same (a ∷ as') [] = false
same (a ∷ as') (b ∷ bs) = if a == b then same as' bs else false

pub same_iff : (a b : Bytes) → (same a b ≡ true) ↔ (a ≡ b)
unfolding same
same_iff [] [] = ground arith
same_iff [] (b ∷ bs) = ground arith
same_iff (a ∷ as') [] = ground arith
same_iff (a ∷ as') (b ∷ bs) = ground (arith, same_iff as' bs)

pub same_refl : (a : Bytes) → same a a ≡ true
same_refl a = (same_iff a a).1 refl

-- `bytes.starts_with(prefix)`
unfoldable pub starts_with : Bytes → Bytes → Bool
starts_with [] bs = true
starts_with (p ∷ ps) [] = false
starts_with (p ∷ ps) (b ∷ bs) = if p == b then starts_with ps bs else false

pub starts_with-append : (ps bs : Bytes) → starts_with ps (ps ++ bs) ≡ true
unfolding starts_with
starts_with-append [] bs = refl
starts_with-append (p ∷ ps) bs = rw (==_refl p) (starts_with-append ps bs)

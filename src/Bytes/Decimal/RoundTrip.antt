-- ===== src/Bytes/Decimal/RoundTrip.antt =====
-- The text of an integer against its reader.
use alefsdb.Prelude.{
  ℕ, zero, suc, ◌+◌, ◌/◌, ◌%◌, ◌^◌, ◌<◌, ◌≤◌, ◌≡◌, ◌≢◌, ◌==◌, refl, ◌∙◌, true, false, some, [], ◌∷◌,
  arith, Bool-cases, inl, inr, All, ltb-eq-true,
}
use alefsdb.Prelude.Order.{ℤ, pos, negsuc}
use alefsdb.Bytes.{Bytes}
use alefsdb.Bytes.Decimal.{is_digit, digits, number, parse_i64, emit, show_nat, show_i64, IsI64}

-- Reading the last digit of `n` behind those before it gives `n`.
digits-last : (n : ℕ) (out : Bytes) → digits (n / 10) ((b'0' + n % 10) ∷ out) ≡ digits n out
unfolding digits
digits-last n out = ground arith

digits-emit : (f n : ℕ) (out : Bytes) → n ≤ f → digits 0 (emit f n out) ≡ digits n out
unfolding emit
digits-emit zero n out h = let e : n ≡ 0 = omega arith in rw e refl
digits-emit (suc f) n out h = elim (Bool-cases (n == 0)) [
  | inl z ↦ let e : n ≡ 0 = ground arith in rw e refl
  | inr p ↦ rw p (digits-emit f (n / 10) ((b'0' + n % 10) ∷ out) (ground arith) ∙ digits-last n out)
]

-- All bytes are digits.
abbrev pub Digits : Bytes → Type 0
Digits = All (λ b. is_digit b ≡ true)

emit-Digits : (f n : ℕ) (out : Bytes) → Digits out → Digits (emit f n out)
unfolding emit
emit-Digits zero n out h = h
emit-Digits (suc f) n out h = elim (Bool-cases (n == 0)) [
  | inl z ↦ rw z h
  | inr p ↦ rw p (emit-Digits f (n / 10) ((b'0' + n % 10) ∷ out) (ground arith, h))
]

pub show_nat-Digits : (n : ℕ) → Digits (show_nat n)
unfolding show_nat
show_nat-Digits n = elim (Bool-cases (n == 0)) [
  | inl z ↦ rw z (refl, tt)
  | inr p ↦ rw p (emit-Digits n n [] tt)
]

emit-ne-nil : (f n : ℕ) (b : ℕ) (out : Bytes) → emit f n (b ∷ out) ≢ []
unfolding emit
emit-ne-nil zero n b out = cc
emit-ne-nil (suc f) n b out = elim (Bool-cases (n == 0)) [
  | inl z ↦ rw z (cc)
  | inr p ↦ rw p (emit-ne-nil f (n / 10) (b'0' + n % 10) (b ∷ out))
]

pub show_nat-ne-nil : (n : ℕ) → show_nat n ≢ []
unfolding show_nat emit
show_nat-ne-nil zero = cc
show_nat-ne-nil (suc n) =
    let e : (suc n == 0) ≡ false = ground arith in
    rw e (emit-ne-nil n (suc n / 10) (b'0' + suc n % 10) [])

digits-show_nat : (n : ℕ) → digits 0 (show_nat n) ≡ some n
unfolding show_nat
digits-show_nat n = elim (Bool-cases (n == 0)) [
  | inl z ↦ let e : n ≡ 0 = ground arith in unfold digits in rw e refl
  | inr p ↦ rw p (digits-emit n n [] (omega arith) ∙ unfold digits in refl)
]

pub number-show_nat : (n : ℕ) → number (show_nat n) ≡ some n
number-show_nat n = go (show_nat n) (show_nat-ne-nil n) (digits-show_nat n)
  where
    go : (bs : Bytes) → bs ≢ [] → digits 0 bs ≡ some n → number bs ≡ some n
    go [] h e = absurd (h refl)
    go (b ∷ bs) h e = unfold number in e

-- A number's text starts with neither sign.
no_sign :
    (bs : Bytes) (n : ℕ)
    → bs ≢ []
    → Digits bs
    → number bs ≡ some n
    → n < 2 ^ 63
    → parse_i64 bs ≡ some (pos n)
unfolding parse_i64
no_sign [] n h d e l = absurd (h refl)
no_sign (b ∷ bs) n h d e l =
    let m : (b == b'-') ≡ false = ground (arith, d.0) in
    let p : (b == b'+') ≡ false = ground (arith, d.0) in rw (m, p, e, ltb-eq-true n (2 ^ 63) l) refl

-- An `i64` is read back from its text.
pub parse_i64-show_i64 : (n : ℤ) → IsI64 n → parse_i64 (show_i64 n) ≡ some n
unfolding show_i64
parse_i64-show_i64 (pos n) h =
    no_sign (show_nat n) n (show_nat-ne-nil n) (show_nat-Digits n) (number-show_nat n) h
parse_i64-show_i64 (negsuc n) h =
    unfold parse_i64 in
    (rw (number-show_nat (suc n), ltb-eq-true (suc n) (2 ^ 63 + 1) (omega (arith, h))) refl)

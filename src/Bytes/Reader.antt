-- ===== src/Bytes/Reader.antt =====
-- A cursor over a slice that each read moves: `&mut &[u8]`. The error of a short input is a
-- parameter.
use alefsdb.Prelude.{
  ℕ, ◌≡◌, ◌<◌, ◌^◌, [], ◌∷◌, ◌++◌, arith, Result, ok, err, length, take, drop, ltb, ltb-eq-false,
  if◌then◌else◌, length-append, take-append, drop-append,
}
use alefsdb.Bytes.Text.{Bytes}
use alefsdb.Bytes.Words.{from_le, le_bytes, length-le_bytes, from_le-le_bytes}

abbrev pub Reader {ℓ κ} : Type ℓ → Type κ → Type (ℓ ⊔ κ)
Reader E A = Bytes → Result E (A × Bytes)

abbrev pub pure {ℓ κ} : {E : Type ℓ} {A : Type κ} → A → Reader E A
pure a cur = ok (a, cur)

abbrev pub fail {ℓ κ} : {E : Type ℓ} {A : Type κ} → E → Reader E A
fail e cur = err e

module _ {ℓ κ κ'} {E : Type ℓ} {A : Type κ} {B : Type κ'} where
  abbrev continue : (A → Reader E B) → Result E (A × Bytes) → Result E (B × Bytes)
  continue f (ok (a, rest)) = f a rest
  continue f (err e) = err e

  infixl 5 ◌>>=◌ ◌>>◌
  abbrev pub ◌>>=◌ : Reader E A → (A → Reader E B) → Reader E B
  ◌>>=◌ m f cur = continue f (m cur)

  abbrev pub ◌>>◌ : Reader E A → Reader E B → Reader E B
  ◌>>◌ m k cur = continue (λ _. k) (m cur)

module _ {ℓ} {E : Type ℓ} (eof : E) where
  unfoldable pub take_byte : Reader E ℕ
  take_byte [] = err eof
  take_byte (b ∷ cur) = ok (b, cur)

  unfoldable pub take_slice : ℕ → Reader E Bytes
  take_slice len cur = if ltb (length cur) len then err eof else ok (take len cur, drop len cur)

  -- A little-endian integer of `w` bytes.
  unfoldable pub take_le : ℕ → Reader E ℕ
  take_le w cur = continue (λ slice. pure (from_le slice)) (take_slice w cur)

  pub take_slice-append :
      (n : ℕ) (s rest : Bytes) → length s ≡ n → take_slice n (s ++ rest) ≡ ok (s, rest)
  unfolding take_slice
  take_slice-append n s rest h = rw (← h) (
      rw (ltb-eq-false (length (s ++ rest)) (length s) (omega (arith, length-append {0} s rest)))
        (rw (take-append, drop-append)))

  pub take_le-append :
      (w n : ℕ) (rest : Bytes) → n < 256 ^ w → take_le w (le_bytes w n ++ rest) ≡ ok (n, rest)
  unfolding take_le
  take_le-append w n rest h =
      rw (take_slice-append w (le_bytes w n) rest (length-le_bytes w n), from_le-le_bytes w n h)

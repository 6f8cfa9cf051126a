-- ===== src/Storage/Wal/Frame.antt =====
-- The parts of a frame: four bytes of magic, a version, the body's length, the body, its checksum.
use alefsdb.Prelude.{
  ℕ, suc, ◌+◌, ◌^◌, ◌%◌, ◌<◌, ◌≡◌, refl, ap, ◌∙◌, sym, [], ◌∷◌, ◌++◌, append_assoc, length,
  length-append, take, drop, take-append, drop-append, drop-add, false, arith, ltb, ltb-eq-false,
}
use alefsdb.Bytes.{Bytes, le_bytes, from_le, length-le_bytes, from_le-le_bytes}
use alefsdb.Storage.Wal.Crc.{crc32, crc32-lt}
use alefsdb.Storage.Wal.Record.{u32_bytes, frame}

pub from_le-u32_bytes : (n : ℕ) → n < 2 ^ 32 → from_le (u32_bytes n) ≡ n
unfolding u32_bytes
from_le-u32_bytes n h = let e : n % 2 ^ 32 ≡ n = omega arith in rw e (from_le-le_bytes 4 n h)

-- A body with its checksum.
abbrev pub checked : Bytes → Bytes
checked body = body ++ le_bytes 4 (crc32 body)

pub length-checked : (body : Bytes) → length (checked body) ≡ length body + 4
length-checked body =
    omega (arith, length-append {0} body (le_bytes 4 (crc32 body)), length-le_bytes 4 (crc32 body))

-- What the tests of the readers see of a frame with `rest` behind it.
pub record Parts (body rest buf : Bytes) : Type 0 where
  pub long : ltb (length buf) (9 + length body + 4) ≡ false
  pub taken : take (length body) (drop 9 buf) ≡ body
  pub sum : from_le (take 4 (drop (9 + length body) buf)) ≡ crc32 body
  pub behind : drop (9 + length body + 4) buf ≡ rest

module _ (a b c d version : ℕ) where
  -- A frame's first nine bytes, and what follows them.
  unfoldable pub header_with : ℕ → Bytes → Bytes
  header_with n r = a ∷ b ∷ c ∷ d ∷ version ∷ (u32_bytes n ++ r)

  drop-header_with : (n : ℕ) (r : Bytes) → drop 9 (header_with n r) ≡ r
  unfolding header_with u32_bytes le_bytes
  drop-header_with n r = refl

  pub length-header_with : (n : ℕ) (r : Bytes) → length (header_with n r) ≡ 9 + length r
  unfolding header_with u32_bytes le_bytes
  length-header_with n r = omega arith

  header_with-append :
      (n : ℕ) (r rest : Bytes) → header_with n r ++ rest ≡ header_with n (r ++ rest)
  unfolding header_with u32_bytes le_bytes
  header_with-append n r rest = refl

  pub take-header_with :
      (n k : ℕ) (r : Bytes)
      → take (suc (suc (suc (suc (suc (suc (suc (suc (suc k))))))))) (header_with n r)
        ≡ header_with n (take k r)
  unfolding header_with u32_bytes le_bytes
  take-header_with n k r = refl

  pub frame-header_with :
      (body : Bytes)
      → frame (a ∷ b ∷ c ∷ d ∷ []) version body ≡ header_with (length body) (checked body)
  unfolding frame header_with
  frame-header_with body = refl

  header_with-Parts :
      (body rest buf : Bytes)
      → buf ≡ header_with (length body) (body ++ (le_bytes 4 (crc32 body) ++ rest))
      → Parts body rest buf
  header_with-Parts body rest buf h =
      let n = length body in
      let sum = le_bytes 4 (crc32 body) in
      let at9 : drop 9 buf ≡ body ++ (sum ++ rest) =
        ap (drop 9) h ∙ drop-header_with n (body ++ (sum ++ rest)) in
      let at_sum : drop (9 + n) buf ≡ sum ++ rest =
        drop-add 9 n buf ∙ ap (drop n) at9 ∙ drop-append body (sum ++ rest) in
      let len_sum = length-le_bytes 4 (crc32 body) in
      let at_end : drop (9 + n + 4) buf ≡ rest =
        drop-add (9 + n) 4 buf
        ∙ ap (drop 4) at_sum
        ∙ ap (λ k. drop k (sum ++ rest)) (sym len_sum)
        ∙ drop-append sum rest in
      let first4 : take 4 (sum ++ rest) ≡ sum =
        ap (λ k. take k (sum ++ rest)) (sym len_sum) ∙ take-append sum rest in
      record {
        long = ltb-eq-false (length buf) (9 + n + 4) (
            omega (
              arith,
              ap length h,
              length-header_with n (body ++ (sum ++ rest)),
              length-append {0} body (sum ++ rest),
              length-append {0} sum rest,
              len_sum,
            ));
        taken = ap (take n) at9 ∙ take-append body (sum ++ rest);
        sum =
            ap (λ t. from_le (take 4 t)) at_sum
            ∙ ap from_le first4
            ∙ from_le-le_bytes 4 (crc32 body) (crc32-lt body);
        behind = at_end;
      }

  -- A frame with anything behind it has its parts in their places.
  pub frame-Parts :
      (body rest : Bytes) → Parts body rest (frame (a ∷ b ∷ c ∷ d ∷ []) version body ++ rest)
  frame-Parts body rest =
      let n = length body in
      header_with-Parts body rest (frame (a ∷ b ∷ c ∷ d ∷ []) version body ++ rest) (
        ap (λ r. r ++ rest) (frame-header_with body)
        ∙ header_with-append n (checked body) rest
        ∙ ap (header_with n) (append_assoc body (le_bytes 4 (crc32 body)) rest))

  pub frame-append :
      (body rest : Bytes)
      → frame (a ∷ b ∷ c ∷ d ∷ []) version body ++ rest
        ≡ header_with (length body) (checked body ++ rest)
  frame-append body rest =
      ap (λ r. r ++ rest) (frame-header_with body)
      ∙ header_with-append (length body) (checked body) rest

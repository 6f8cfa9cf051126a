-- ===== src/Fuse/Buffers.antt =====
-- The pending writes of `AlefsFs`, and the reads that see them: `write`, and `read` where the inode
-- is dirty (crates/alefs-fuse/src/lib.rs). Offsets are not negative, and ends are below 2^64.
use mathlib.Core.Option
use alefsdb.Prelude.{
  ℕ, zero, suc, ◌+◌, ◌-◌, ◌%◌, ◌^◌, ◌<◌, ◌≤◌, ◌≡◌, refl, sym, ap, ◌∙◌, Option, none, some, [], ◌∷◌,
  ◌++◌, length, take, drop, ltb, leb, if◌then◌else◌, arith, append-nil, Bool-cases, inl, inr,
  length-append, true, false, take-append,
}
use alefsdb.Prelude.Order.{nat_ord, compare_refl}
use alefsdb.Prelude.OrdMap.{OrdMap, get, insert, get-insert}
use alefsdb.Bytes.{Bytes}

abbrev pub Dirty : Type 0
Dirty = OrdMap ℕ Bytes

abbrev pub zeros : ℕ → Bytes
zeros zero = []
zeros (suc n) = 0 ∷ zeros n

-- `buf.resize(end, 0)` where the buffer is shorter.
unfoldable pub grow : Bytes → ℕ → Bytes
grow buf end = if ltb (length buf) end then buf ++ zeros (end - length buf) else buf

-- `buf[offset..end].copy_from_slice(data)`
unfoldable pub write_at : Bytes → ℕ → Bytes → Bytes
write_at buf offset bytes =
    let end = offset + length bytes in
    let grown = grow buf end in take offset grown ++ bytes ++ drop end grown

-- `dirty.entry(ino).or_default()`
unfoldable pub or_default : Option Bytes → Bytes
or_default none = []
or_default (some buf) = buf

unfoldable pub write : Dirty → ℕ → ℕ → Bytes → Dirty × ℕ
write dirty ino offset bytes =
    (insert ino (write_at (or_default (get ino dirty)) offset bytes) dirty, length bytes % 2 ^ 32)

abbrev pub min : ℕ → ℕ → ℕ
min a b = if ltb a b then a else b

-- `&data[start..end]`
unfoldable pub read_slice : Bytes → ℕ → ℕ → Bytes
read_slice bytes offset size =
    if leb (length bytes) offset
    then []
    else take (min (offset + size) (length bytes) - offset) (drop offset bytes)

-- `read` where the inode is dirty; none where it is not.
unfoldable pub read : Dirty → ℕ → ℕ → ℕ → Option Bytes
read dirty ino offset size = Option.map (λ buf. read_slice buf offset size) (get ino dirty)

-- The byte at a place, and 0 behind the end.
abbrev pub byte_at : ℕ → Bytes → ℕ
byte_at i [] = 0
byte_at zero (b ∷ bs) = b
byte_at (suc i) (b ∷ bs) = byte_at i bs

-- What a write at an offset leaves, byte for byte.
abbrev pub overlaid : Bytes → ℕ → Bytes → Bytes
overlaid buf zero bytes = bytes ++ drop (length bytes) buf
overlaid [] (suc o) bytes = 0 ∷ overlaid [] o bytes
overlaid (b ∷ buf) (suc o) bytes = b ∷ overlaid buf o bytes

ltb-lt : (a b : ℕ) → ltb a b ≡ true → a < b
ltb-lt a b h = ground (arith, h)

drop_all : (n : ℕ) (xs : Bytes) → length xs ≤ n → drop n xs ≡ []
drop_all zero [] h = refl
drop_all zero (x ∷ xs) h = absurd (omega (arith, h))
drop_all (suc n) [] h = refl
drop_all (suc n) (x ∷ xs) h = drop_all n xs (omega (arith, h))

length-zeros : (n : ℕ) → length (zeros n) ≡ n
length-zeros zero = refl
length-zeros (suc n) = ap (λ k. suc k) (length-zeros n)

drop-grow : (buf : Bytes) (n : ℕ) → drop n (grow buf n) ≡ drop n buf
unfolding grow
drop-grow buf n = elim (Bool-cases (ltb (length buf) n)) [
  | inl p ↦ rw p (
      drop_all n (buf ++ zeros (n - length buf)) (
        omega (
          arith,
          length-append {0} buf (zeros (n - length buf)),
          length-zeros (n - length buf),
          ltb-lt (length buf) n p,
        ))
      ∙ sym (drop_all n buf (omega (arith, ltb-lt (length buf) n p))))
  | inr p ↦ rw p
]

grow-nil : (n : ℕ) → grow [] (suc n) ≡ 0 ∷ grow [] n
unfolding grow
grow-nil zero = refl
grow-nil (suc n) =
    let l : ltb 0 (suc (suc n)) ≡ true = ground arith in
    let k : ltb 0 (suc n) ≡ true = ground arith in
    let e : suc (suc n) - 0 ≡ suc (suc n) = omega arith in
    let f : suc n - 0 ≡ suc n = omega arith in rw (l, k, e, f) refl

grow-cons : (b : ℕ) (buf : Bytes) (n : ℕ) → grow (b ∷ buf) (suc n) ≡ b ∷ grow buf n
unfolding grow
grow-cons b buf n = elim (Bool-cases (ltb (length buf) n)) [
  | inl p ↦
      let q : ltb (suc (length buf)) (suc n) ≡ true = ground (arith, p) in
      let e : suc n - suc (length buf) ≡ n - length buf = omega arith in rw (p, q, e) refl
  | inr p ↦ let q : ltb (suc (length buf)) (suc n) ≡ false = ground (arith, p) in rw (p, q) refl
]

pub write_at-overlaid :
    (buf : Bytes) (o : ℕ) (bytes : Bytes) → write_at buf o bytes ≡ overlaid buf o bytes
unfolding write_at
write_at-overlaid buf zero bytes =
    let e : 0 + length bytes ≡ length bytes = omega arith in
    rw e (ap (λ r. bytes ++ r) (drop-grow buf (length bytes)))
write_at-overlaid [] (suc o) bytes =
    let e : suc o + length bytes ≡ suc (o + length bytes) = omega arith in
    rw (e, grow-nil (o + length bytes)) (ap (λ r. 0 ∷ r) (write_at-overlaid [] o bytes))
write_at-overlaid (b ∷ buf) (suc o) bytes =
    let e : suc o + length bytes ≡ suc (o + length bytes) = omega arith in
    rw (e, grow-cons b buf (o + length bytes)) (ap (λ r. b ∷ r) (write_at-overlaid buf o bytes))

byte_at_beyond : (i : ℕ) (bs : Bytes) → length bs ≤ i → byte_at i bs ≡ 0
byte_at_beyond i [] h = refl
byte_at_beyond zero (b ∷ bs) h = absurd (omega (arith, h))
byte_at_beyond (suc i) (b ∷ bs) h = byte_at_beyond i bs (omega (arith, h))

byte_at-append_drop :
    (i : ℕ) (buf bytes : Bytes)
    → byte_at i (bytes ++ drop (length bytes) buf)
      ≡ (if ltb i (length bytes) then byte_at i bytes else byte_at i buf)
byte_at-append_drop i buf [] = ground arith
byte_at-append_drop zero [] (b ∷ bs) = ground arith
byte_at-append_drop zero (c ∷ buf) (b ∷ bs) = ground arith
byte_at-append_drop (suc i) [] (b ∷ bs) = rw (append-nil bs) (ground (arith, byte_at_beyond i bs))
byte_at-append_drop (suc i) (c ∷ buf) (b ∷ bs) = ground (arith, byte_at-append_drop i buf bs)

-- The byte that a write leaves at a place.
abbrev pub written : ℕ → Bytes → ℕ → Bytes → ℕ
written i buf o bytes =
    if ltb i o
    then byte_at i buf
    else if ltb i (o + length bytes)
    then byte_at (i - o) bytes
    else byte_at i buf

byte_at-overlaid :
    (i : ℕ) (buf : Bytes) (o : ℕ) (bytes : Bytes)
    → byte_at i (overlaid buf o bytes) ≡ written i buf o bytes
byte_at-overlaid i buf zero bytes =
    let e : 0 + length bytes ≡ length bytes = omega arith in
    let z : i - 0 ≡ i = omega arith in
    let l : ltb i 0 ≡ false = ground arith in rw (e, z, l) (byte_at-append_drop i buf bytes)
byte_at-overlaid zero [] (suc o) bytes = ground arith
byte_at-overlaid (suc i) [] (suc o) bytes =
    let e : suc i - suc o ≡ i - o = omega arith in
    rw e (byte_at-overlaid i [] o bytes ∙ ground arith)
byte_at-overlaid zero (b ∷ buf) (suc o) bytes = ground arith
byte_at-overlaid (suc i) (b ∷ buf) (suc o) bytes =
    let e : suc i - suc o ≡ i - o = omega arith in
    rw e (byte_at-overlaid i buf o bytes ∙ ground arith)

-- A byte behind a write at an offset is the byte that was written there, or the one before the write,
-- or 0 where the buffer had none.
pub byte_at-write_at :
    (i : ℕ) (buf : Bytes) (offset : ℕ) (bytes : Bytes)
    → byte_at i (write_at buf offset bytes) ≡ written i buf offset bytes
byte_at-write_at i buf offset bytes =
    rw (write_at-overlaid buf offset bytes) (byte_at-overlaid i buf offset bytes)

take-overlaid :
    (buf : Bytes) (o : ℕ) (bytes : Bytes)
    → take (length bytes) (drop o (overlaid buf o bytes)) ≡ bytes
take-overlaid buf zero bytes = take-append bytes (drop (length bytes) buf)
take-overlaid [] (suc o) bytes = take-overlaid [] o bytes
take-overlaid (b ∷ buf) (suc o) bytes = take-overlaid buf o bytes

length-overlaid :
    (buf : Bytes) (o : ℕ) (bytes : Bytes) → o + length bytes ≤ length (overlaid buf o bytes)
length-overlaid buf zero bytes = omega (arith, length-append {0} bytes (drop (length bytes) buf))
length-overlaid [] (suc o) bytes = omega (arith, length-overlaid [] o bytes)
length-overlaid (b ∷ buf) (suc o) bytes = omega (arith, length-overlaid buf o bytes)

no_bytes : (bytes : Bytes) → length bytes ≤ 0 → [] ≡ bytes
no_bytes [] h = refl
no_bytes (b ∷ bs) h = absurd (omega (arith, h))

read_slice-write_at :
    (buf : Bytes) (offset : ℕ) (bytes : Bytes)
    → read_slice (write_at buf offset bytes) offset (length bytes) ≡ bytes
unfolding read_slice
read_slice-write_at buf o bytes =
    let len = length (overlaid buf o bytes) in
    let within = length-overlaid buf o bytes in
    rw (write_at-overlaid buf o bytes) (elim (Bool-cases (leb len o)) [
      | inl p ↦
          let le : len ≤ o = ground (arith, p) in rw p (no_bytes bytes (omega (arith, within, le)))
      | inr p ↦
          let e : min (o + length bytes) len - o ≡ length bytes = ground (arith, within) in
          rw (p, e) (take-overlaid buf o bytes)
    ])

get_written : (dirty : Dirty) (ino : ℕ) (buf : Bytes) → get ino (insert ino buf dirty) ≡ some buf
get_written dirty ino buf = rw (get-insert ino ino buf dirty, compare_refl ino) refl

-- What is written at an offset is what a read of as many bytes returns there.
pub read-write :
    (dirty : Dirty) (ino offset : ℕ) (bytes : Bytes)
    → read (write dirty ino offset bytes).0 ino offset (length bytes) ≡ some bytes
unfolding write read
read-write dirty ino offset bytes =
    let buf = or_default (get ino dirty) in
    rw (get_written dirty ino (write_at buf offset bytes))
      (ap (λ r. some r) (read_slice-write_at buf offset bytes))

overlaid-nil : (o : ℕ) (bytes : Bytes) → overlaid [] o bytes ≡ zeros o ++ bytes
overlaid-nil zero bytes = rw (drop_all (length bytes) [] (omega arith)) (append-nil bytes)
overlaid-nil (suc o) bytes = ap (λ r. 0 ∷ r) (overlaid-nil o bytes)

-- The first write to an inode that is not dirty leaves zeros up to its offset and nothing behind it,
-- whatever value the inode's path has.
pub write_first-zeros :
    (dirty : Dirty) (ino offset : ℕ) (bytes : Bytes)
    → get ino dirty ≡ none
    → get ino (write dirty ino offset bytes).0 ≡ some (zeros offset ++ bytes)
unfolding write or_default
write_first-zeros dirty ino offset bytes clean =
    rw (clean, get_written dirty ino (write_at [] offset bytes))
      (ap (λ r. some r) (write_at-overlaid [] offset bytes ∙ overlaid-nil offset bytes))

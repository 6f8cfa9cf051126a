-- ===== src/Server/Framing.antt =====
-- `read_message` and `write_message` (crates/alefs-server/src/handle.rs): a length of four bytes, and
-- the payload. A stream is the bytes that are left of it, and it ends where they end.
use alefsdb.Prelude.{
  ℕ, zero, suc, ◌*◌, ◌^◌, ◌%◌, ◌<◌, ◌≤◌, ◌≡◌, refl, false, Option, none, some, List, [], ◌∷◌, ◌++◌,
  append_assoc, Result, ok, err, ◌>>=◌, ltb, length, take, drop, if◌then◌else◌, All, arith,
  ltb-eq-true, ltb-eq-false, length-append, take-append, drop-append,
}
use alefsdb.Bytes.{Bytes, le_bytes, from_le, length-le_bytes, from_le-le_bytes}

pub data FrameError : Type 0 where
  -- `read_exact` of a payload at the end of the stream
  unexpected_eof : FrameError
  message_too_large : FrameError

-- 64 MiB
abbrev pub max_message : ℕ
max_message = 64 * 1024 * 1024

-- `stream.read_exact` of `n` bytes, with the rest; none at the end of the stream.
unfoldable pub read_exact : ℕ → Bytes → Option (Bytes × Bytes)
read_exact n s = if ltb (length s) n then none else some (take n s, drop n s)

unfoldable pub payload_of : Option (Bytes × Bytes) → Result FrameError (Option (Bytes × Bytes))
payload_of none = err unexpected_eof
payload_of (some r) = ok (some r)

unfoldable pub read_payload : ℕ → Bytes → Result FrameError (Option (Bytes × Bytes))
read_payload len s =
    if ltb max_message len then err message_too_large else payload_of (read_exact len s)

-- The `match` on the length: the end of the stream there is the end of the messages.
unfoldable pub message_of : Option (Bytes × Bytes) → Result FrameError (Option (Bytes × Bytes))
message_of none = ok none
message_of (some (len, rest)) = read_payload (from_le len) rest

unfoldable pub read_message : Bytes → Result FrameError (Option (Bytes × Bytes))
read_message s = message_of (read_exact 4 s)

-- `payload.len() as u32` wraps around.
unfoldable pub write_message : Bytes → Bytes
write_message payload = le_bytes 4 (length payload % 2 ^ 32) ++ payload

read_exact-append : (xs ys : Bytes) → read_exact (length xs) (xs ++ ys) ≡ some (xs, ys)
unfolding read_exact
read_exact-append xs ys =
    let l : ltb (length (xs ++ ys)) (length xs) ≡ false =
      ltb-eq-false (length (xs ++ ys)) (length xs) (omega (arith, length-append xs ys)) in
    rw (l, take-append xs ys, drop-append xs ys) refl

-- A message that is not too large is read back, and what follows it is left.
pub read_message-write_message :
    (payload rest : Bytes)
    → length payload ≤ max_message
    → read_message (write_message payload ++ rest) ≡ ok (some (payload, rest))
unfolding read_message write_message message_of read_payload
read_message-write_message payload rest h =
    let n = length payload % 2 ^ 32 in
    let same : n ≡ length payload = omega (arith, h) in
    let four = length-le_bytes 4 n in
    let r : read_exact 4 (le_bytes 4 n ++ (payload ++ rest))
        ≡ some (le_bytes 4 n, payload ++ rest) =
      rw four at (read_exact-append (le_bytes 4 n) (payload ++ rest)) in
    let fits : ltb max_message (length payload) ≡ false =
      ltb-eq-false max_message (length payload) h in
    rw
      (
        append_assoc (le_bytes 4 n) payload rest,
        r,
        from_le-le_bytes 4 n (omega (arith, same, h)),
        same,
        fits,
        read_exact-append payload rest,
      )
      (unfold payload_of in refl)

-- A message above the limit whose length fits the four bytes is written, and refused by the reader.
pub read_message_too_large :
    (payload rest : Bytes)
    → max_message < length payload
    → length payload < 2 ^ 32
    → read_message (write_message payload ++ rest) ≡ err message_too_large
unfolding read_message write_message message_of read_payload
read_message_too_large payload rest h k =
    let n = length payload % 2 ^ 32 in
    let same : n ≡ length payload = omega (arith, k) in
    let four = length-le_bytes 4 n in
    let r : read_exact 4 (le_bytes 4 n ++ (payload ++ rest))
        ≡ some (le_bytes 4 n, payload ++ rest) =
      rw four at (read_exact-append (le_bytes 4 n) (payload ++ rest)) in
    rw
      (
        append_assoc (le_bytes 4 n) payload rest,
        r,
        from_le-le_bytes 4 n (omega (arith, same, k)),
        same,
        ltb-eq-true max_message (length payload) h,
      )
      refl

-- The messages of a stream, on fuel: a message takes four bytes at least.
unfoldable pub read_all : ℕ → Bytes → Result FrameError (List Bytes)
read_all zero s = ok []
read_all (suc f) s = read_message s >>= λ m. elim m [
  | none ↦ ok []
  | some (payload, rest) ↦ read_all f rest >>= λ more. ok (payload ∷ more)
]

unfoldable pub write_all : List Bytes → Bytes
write_all [] = []
write_all (m ∷ ms) = write_message m ++ write_all ms

-- What is written message by message is read message by message.
pub read_all-write_all :
    (ms : List Bytes) (f : ℕ)
    → All (λ m. length m ≤ max_message) ms
    → length ms < f
    → read_all f (write_all ms) ≡ ok ms
unfolding read_all write_all
read_all-write_all ms zero h l = absurd (omega (arith, l))
read_all-write_all [] (suc f) h l = unfold read_message read_exact message_of in refl
read_all-write_all (m ∷ ms) (suc f) h l =
    rw
      (
        read_message-write_message m (write_all ms) h.0,
        read_all-write_all ms f h.1 (omega (arith, l)),
      )
      refl

-- ===== src/Storage/Wal/Checkpoint/RoundTrip.antt =====
-- The frame of a checkpoint against its reader.
use alefsdb.Prelude.{
  ℕ, ◌^◌, ◌%◌, ◌/◌, ◌<◌, ◌≡◌, ap, ◌∙◌, sym, [], ◌∷◌, ◌++◌, append_assoc, append-nil, length, arith,
  ok, ==_refl,
}
use alefsdb.Prelude.Order.{nat_ord, list_ord}
use alefsdb.Prelude.OrdMap.{Sorted, insert-eq-append}
use alefsdb.Bytes.{Bytes, le_bytes, from_le, same}
use alefsdb.Bytes.Reader.{take_le-append}
use alefsdb.Storage.Batch.{ByteMap}
use alefsdb.Storage.Wal.Crc.{crc32}
use alefsdb.Storage.Wal.Errors.{unexpected_eof}
use alefsdb.Storage.Wal.Record.{u32_bytes, sized, frame, read_int}
use alefsdb.Storage.Wal.Record.RoundTrip.{read_int-u32_bytes, read_bytes-sized}
use alefsdb.Storage.Wal.Frame
use alefsdb.Storage.Wal.Frame.{checked, length-checked, from_le-u32_bytes, Parts}
use alefsdb.Storage.Wal.Checkpoint.{
  checkpoint_magic, checkpoint_version, encode_rows, checkpoint_body, encode_checkpoint, read_rows,
  read_state, end_state, load_body, load_checkpoint,
}

abbrev RowsFit : ByteMap → Type 0
RowsFit [] = Unit
RowsFit ((k, v) ∷ m) = (length k < 2 ^ 32) × (length v < 2 ^ 32) × RowsFit m

-- The lengths that a checkpoint writes as 32 bits fit in them.
pub record MapFits (m : ByteMap) : Type 0 where
  pub count : length m < 2 ^ 32
  pub rows : RowsFit m
  pub body : length (checkpoint_body m 0) < 2 ^ 32

read_rows-encode_rows :
    (m acc : ByteMap) (rest : Bytes)
    → RowsFit m
    → Sorted (acc ++ m)
    → read_rows (length m) acc (encode_rows m ++ rest) ≡ ok (acc ++ m, rest)
unfolding read_rows encode_rows
read_rows-encode_rows [] acc rest h s = rw append-nil
read_rows-encode_rows ((k, v) ∷ m) acc rest h s = simp (
  append_assoc,
  read_bytes-sized k (sized v ++ (encode_rows m ++ rest)) h.0,
  read_bytes-sized v (encode_rows m ++ rest) h.1,
  insert-eq-append acc k v m s,
  read_rows-encode_rows m (acc ++ (k, v) ∷ []) rest h.2 (rw append_assoc s),
)

read_int-offset : (rest : Bytes) → read_int 8 (le_bytes 8 0 ++ rest) ≡ ok (0, rest)
unfolding read_int
read_int-offset rest = take_le-append unexpected_eof 8 0 rest (omega arith)

read_state-checkpoint_body :
    (m : ByteMap) → MapFits m → Sorted m → read_state (checkpoint_body m 0) ≡ ok ((m, 0), [])
unfolding read_state checkpoint_body
read_state-checkpoint_body m h s =
    let rows = rw append-nil at (read_rows-encode_rows m [] [] h.rows s) in
    rw (
      read_int-offset (u32_bytes (length m) ++ encode_rows m),
      read_int-u32_bytes (length m) (encode_rows m) h.count,
      rows,
    )

load_body-Parts :
    (m : ByteMap) (rest buf : Bytes)
    → MapFits m
    → Sorted m
    → Parts (checkpoint_body m 0) rest buf
    → load_body (length (checkpoint_body m 0)) buf ≡ ok (m, 0)
unfolding load_body end_state
load_body-Parts m rest buf h s p = rw (
  p.long,
  p.taken,
  p.sum,
  ==_refl (crc32 (checkpoint_body m 0)),
  read_state-checkpoint_body m h s,
)

load_checkpoint-bytes :
    (a b c d : ℕ) (r : Bytes)
    → let buf = checkpoint_magic ++ checkpoint_version ∷ a ∷ b ∷ c ∷ d ∷ r in
      load_checkpoint buf ≡ load_body (from_le (a ∷ b ∷ c ∷ d ∷ [])) buf
unfolding load_checkpoint same
load_checkpoint-bytes a b c d r = ground arith

abbrev header : ℕ → Bytes → Bytes
header = Frame.header_with b'C' b'K' b'P' b'T' checkpoint_version

load_checkpoint-header :
    (n : ℕ) (r : Bytes) → n < 2 ^ 32 → load_checkpoint (header n r) ≡ load_body n (header n r)
unfolding Frame.header_with u32_bytes le_bytes
load_checkpoint-header n r h =
    let m = n % 2 ^ 32 in
    load_checkpoint-bytes (m % 256) (m / 256 % 256) (m / 256 / 256 % 256)
      (m / 256 / 256 / 256 % 256) r
    ∙ ap (λ k. load_body k (header n r)) (from_le-u32_bytes n h)

-- The checkpoint of a sorted map whose lengths fit loads as that map, with offset 0.
pub load_checkpoint-encode_checkpoint :
    (m : ByteMap) → MapFits m → Sorted m → load_checkpoint (encode_checkpoint m 0) ≡ ok (m, 0)
unfolding encode_checkpoint
load_checkpoint-encode_checkpoint m h s =
    let body = checkpoint_body m 0 in
    let e =
      ap (λ b. b) (sym (append-nil (frame checkpoint_magic checkpoint_version body)))
      ∙ Frame.frame-append b'C' b'K' b'P' b'T' checkpoint_version body [] in
    ap load_checkpoint e
    ∙ load_checkpoint-header (length body) (checked body ++ []) h.body
    ∙ ap (load_body (length body)) (sym e)
    ∙ load_body-Parts m [] (frame checkpoint_magic checkpoint_version body) h s
        (rw append-nil at (Frame.frame-Parts b'C' b'K' b'P' b'T' checkpoint_version body []))

-- ===== src/Storage/Wal/Replay/Frames.antt =====
-- The loop's tests on a whole record, and on one that is cut off.
use alefsdb.Prelude.{
  ℕ, suc, ◌+◌, ◌-◌, ◌^◌, ◌%◌, ◌/◌, ◌<◌, ◌≡◌, ap, ◌∙◌, sym, [], ◌∷◌, ◌++◌, length, length-take-le,
  take, arith, ltb-eq-true, ==_refl,
}
use native.Mathlib.Decide.{dec_lt}
use alefsdb.Bytes.{Bytes, le_bytes, from_le, same}
use alefsdb.Storage.Wal.Crc.{crc32}
use alefsdb.Storage.Wal.Record.{magic, wal_version, u32_bytes, frame}
use alefsdb.Storage.Wal.Frame
use alefsdb.Storage.Wal.Frame.{checked, length-checked, from_le-u32_bytes, Parts}
use alefsdb.Storage.Wal.Replay.{finished, whole, next_body, next_record}

next_record-bytes :
    (offset a b c d : ℕ) (r : Bytes)
    → let buf = magic ++ wal_version ∷ a ∷ b ∷ c ∷ d ∷ r in
      next_record offset buf ≡ next_body (from_le (a ∷ b ∷ c ∷ d ∷ [])) buf
unfolding next_record same
next_record-bytes offset a b c d r = ground arith

abbrev header : ℕ → Bytes → Bytes
header = Frame.header_with b'A' b'L' b'E' b'F' wal_version

-- What follows a header is only looked at by `next_body`.
next_record-header :
    (offset n : ℕ) (r : Bytes)
    → n < 2 ^ 32
    → next_record offset (header n r) ≡ next_body n (header n r)
unfolding Frame.header_with u32_bytes le_bytes
next_record-header offset n r h =
    let m = n % 2 ^ 32 in
    next_record-bytes offset (m % 256) (m / 256 % 256) (m / 256 / 256 % 256)
      (m / 256 / 256 / 256 % 256) r
    ∙ ap (λ k. next_body k (header n r)) (from_le-u32_bytes n h)

next_body-Parts :
    (body rest buf : Bytes) → Parts body rest buf → next_body (length body) buf ≡ whole body rest
unfolding next_body
next_body-Parts body rest buf p = rw (p.long, p.taken, p.sum, ==_refl (crc32 body), p.behind)

-- A record with anything behind it is found whole.
pub next_record-frame :
    (offset : ℕ) (body rest : Bytes)
    → length body < 2 ^ 32
    → next_record offset (frame magic wal_version body ++ rest) ≡ whole body rest
next_record-frame offset body rest h =
    let n = length body in
    let e = Frame.frame-append b'A' b'L' b'E' b'F' wal_version body rest in
    ap (next_record offset) e
    ∙ next_record-header offset n (checked body ++ rest) h
    ∙ ap (next_body n) (sym e)
    ∙ next_body-Parts body rest (frame magic wal_version body ++ rest)
        (Frame.frame-Parts b'A' b'L' b'E' b'F' wal_version body rest)

next_record-short : (offset : ℕ) (buf : Bytes) → length buf < 9 → next_record offset buf ≡ finished
unfolding next_record
next_record-short offset buf h = rw (ltb-eq-true (length buf) 9 h)

next_body-short : (n : ℕ) (buf : Bytes) → length buf < 9 + n + 4 → next_body n buf ≡ finished
unfolding next_body
next_body-short n buf h = rw (ltb-eq-true (length buf) (9 + n + 4) h)

next_record-cut :
    (offset : ℕ) (body : Bytes) (k : ℕ)
    → length body < 2 ^ 32
    → k < length body + 4
    → next_record offset (header (length body) (take k (checked body))) ≡ finished
next_record-cut offset body k h l =
    let n = length body in
    next_record-header offset n (take k (checked body)) h
    ∙ next_body-short n (header n (take k (checked body))) (
        omega (
          arith,
          Frame.length-header_with b'A' b'L' b'E' b'F' wal_version n (take k (checked body)),
          length-take-le {0} k (checked body),
        ))

-- A record of which only the first bytes are there ends the loop.
pub next_record-torn :
    (offset : ℕ) (body : Bytes) (n : ℕ)
    → length body < 2 ^ 32
    → n < length (frame magic wal_version body)
    → next_record offset (take n (frame magic wal_version body)) ≡ finished
next_record-torn offset body n h k =
    let r = frame magic wal_version body in
    let e = Frame.frame-header_with b'A' b'L' b'E' b'F' wal_version body in
    elim (dec_lt n 9) [
      | yes short ↦ next_record-short offset (take n r) (omega (arith, length-take-le {0} n r))
      | no long ↦
          let j = n - 9 in
          let e9 : n ≡ suc (suc (suc (suc (suc (suc (suc (suc (suc j)))))))) = omega arith in
          let cut : take n r ≡ header (length body) (take j (checked body)) =
            ap (λ i. take i r) e9
            ∙ ap (take (suc (suc (suc (suc (suc (suc (suc (suc (suc j)))))))))) e
            ∙ Frame.take-header_with b'A' b'L' b'E' b'F' wal_version (length body) j
                (checked body) in
          rw cut (
            next_record-cut offset body j h (
              omega (
                arith,
                ap length e,
                Frame.length-header_with b'A' b'L' b'E' b'F' wal_version (length body)
                    (checked body),
                length-checked body,
              )))
    ]

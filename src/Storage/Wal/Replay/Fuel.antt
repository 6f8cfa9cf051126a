-- ===== src/Storage/Wal/Replay/Fuel.antt =====
-- The fuel of the replay's loop. `replay_wal` gives one unit more than there are bytes.
use alefsdb.Prelude.{
  ℕ, zero, suc, ◌+◌, ◌<◌, ◌≡◌, refl, [], ◌∷◌, length, length-drop, drop, take, arith, Result, ok,
  err, ◌>>=◌,
}
use alefsdb.Bytes.{Bytes, from_le}
use alefsdb.Storage.Batch.{ByteMap}
use alefsdb.Storage.Wal.Errors.{StorageError}
use alefsdb.Storage.Wal.Record.{apply_record_body}
use alefsdb.Storage.Wal.Replay.{Next, finished, refused, whole, next_body, next_record, replay_loop}

next_body-shorter :
    (n : ℕ) (buf body rest : Bytes) → next_body n buf ≡ whole body rest → length rest < length buf
unfolding next_body
next_body-shorter n buf body rest h = ground (arith, length-drop (9 + n + 4) buf)

next_record-shorter :
    (offset : ℕ) (buf body rest : Bytes)
    → next_record offset buf ≡ whole body rest
    → length rest < length buf
unfolding next_record
next_record-shorter offset buf body rest h =
    ground (arith, next_body-shorter (from_le (take 4 (drop 5 buf))) buf body rest)

bind-cong {ℓ κ κ'} :
    {E : Type ℓ} {A : Type κ} {B : Type κ'} (r : Result E A) (f g : A → Result E B)
    → ((a : A) → f a ≡ g a)
    → r >>= f ≡ r >>= g
bind-cong (ok a) f g h = h a
bind-cong (err e) f g h = refl

-- A round whose continuations agree on what is left.
round-cong :
    (next : Next) (offset : ℕ) (m : ByteMap)
    (f g : ℕ → Bytes → ByteMap → Result StorageError ByteMap)
    → ((body rest : Bytes) (o : ℕ) (m' : ByteMap)
        → next ≡ whole body rest
        → f o rest m' ≡ g o rest m')
    → elim next as (λ x. Result StorageError ByteMap) [
      | finished ↦ ok m
      | refused e ↦ err e
      | whole body rest ↦
          apply_record_body body m >>= λ m'. f (offset + (9 + length body + 4)) rest m'
    ]
      ≡ elim next as (λ x. Result StorageError ByteMap) [
        | finished ↦ ok m
        | refused e ↦ err e
        | whole body rest ↦
            apply_record_body body m >>= λ m'. g (offset + (9 + length body + 4)) rest m'
      ]
round-cong finished offset m f g h = refl
round-cong (refused e) offset m f g h = refl
round-cong (whole body rest) offset m f g h =
    bind-cong (apply_record_body body m) (λ m'. f (offset + (9 + length body + 4)) rest m')
      (λ m'. g (offset + (9 + length body + 4)) rest m')
      λ m'. h body rest (offset + (9 + length body + 4)) m' refl

-- On any bytes, whole records or not, the replay comes to the same on every fuel above their number.
pub replay_loop-fuel :
    (f g offset : ℕ) (buf : Bytes) (m : ByteMap)
    → length buf < f
    → length buf < g
    → replay_loop f offset buf m ≡ replay_loop g offset buf m
unfolding replay_loop
replay_loop-fuel zero g offset buf m h k = absurd (omega arith)
replay_loop-fuel (suc f) zero offset buf m h k = absurd (omega arith)
replay_loop-fuel (suc f) (suc g) offset [] m h k = refl
replay_loop-fuel (suc f) (suc g) offset (b ∷ bs) m h k =
    round-cong (next_record offset (b ∷ bs)) offset m (replay_loop f) (replay_loop g)
      λ body rest o m' e.
        let shorter = next_record-shorter offset (b ∷ bs) body rest e in
        replay_loop-fuel f g o rest m' (omega (arith, shorter, h)) (omega (arith, shorter, k))

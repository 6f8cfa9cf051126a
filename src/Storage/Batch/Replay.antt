-- ===== src/Storage/Batch/Replay.antt =====
-- A batch at each key, and a batch that is applied twice.
use alefsdb.Prelude.{◌≡◌, refl, ap, ◌∙◌, sym, Option, none, some, [], ◌∷◌, ◌++◌, inl, inr, ◌⊎◌}
use alefsdb.Prelude.Order.{nat_ord, list_ord}
use alefsdb.Prelude.OrdMap.{
  Sorted, get, get-insert, get-remove, insert-Sorted, remove-Sorted, eq_of_get, when_eq,
  Ordering-cases,
}
use alefsdb.Bytes.{Bytes, bytes_ord}
use alefsdb.Storage.Batch.{BatchOp, put, delete, WriteBatch, ByteMap, apply_op, apply_ops}

-- What one operation leaves at a key where `o` stood.
unfoldable pub effect_op : Bytes → Option Bytes → BatchOp → Option Bytes
effect_op j o (put k v) = when_eq (bytes_ord.cmp j k) (some v) o
effect_op j o (delete k) = when_eq (bytes_ord.cmp j k) none o

unfoldable pub effect : Bytes → Option Bytes → WriteBatch → Option Bytes
effect j o [] = o
effect j o (op ∷ ops) = effect j (effect_op j o op) ops

apply_op-Sorted : (m : ByteMap) (op : BatchOp) → Sorted m → Sorted (apply_op m op)
unfolding apply_op
apply_op-Sorted m (put k v) s = insert-Sorted k v m s
apply_op-Sorted m (delete k) s = remove-Sorted k m s

pub apply_ops-Sorted : (m : ByteMap) (ops : WriteBatch) → Sorted m → Sorted (apply_ops m ops)
unfolding apply_ops
apply_ops-Sorted m [] s = s
apply_ops-Sorted m (op ∷ ops) s = apply_ops-Sorted (apply_op m op) ops (apply_op-Sorted m op s)

get-apply_op :
    (j : Bytes) (m : ByteMap) (op : BatchOp)
    → Sorted m
    → get j (apply_op m op) ≡ effect_op j (get j m) op
unfolding apply_op effect_op
get-apply_op j m (put k v) s = get-insert j k v m
get-apply_op j m (delete k) s = get-remove j k m s

-- After a batch on a sorted map each key holds what the batch's operations on that key leave, in
-- their order.
pub get-apply_ops :
    (j : Bytes) (m : ByteMap) (ops : WriteBatch)
    → Sorted m
    → get j (apply_ops m ops) ≡ effect j (get j m) ops
unfolding apply_ops effect
get-apply_ops j m [] s = refl
get-apply_ops j m (op ∷ ops) s =
    get-apply_ops j (apply_op m op) ops (apply_op-Sorted m op s)
    ∙ ap (λ o. effect j o ops) (get-apply_op j m op s)

-- A batch sets a key to one value whatever stood there, or leaves it as it was.
abbrev Settles : Bytes → WriteBatch → Type 0
Settles j ops =
    ((o p : Option Bytes) → effect j o ops ≡ effect j p ops)
    ⊎ ((o : Option Bytes) → effect j o ops ≡ o)

effect_op_settles :
    (j : Bytes) (op : BatchOp)
    → ((o p : Option Bytes) → effect_op j o op ≡ effect_op j p op)
      ⊎ ((o : Option Bytes) → effect_op j o op ≡ o)
unfolding effect_op
effect_op_settles j (put k v) = elim (Ordering-cases (bytes_ord.cmp j k)) [
  | inl h ↦ inr (λ o. rw h)
  | inr (inl h) ↦ inl (λ o p. rw h)
  | inr (inr h) ↦ inr (λ o. rw h)
]
effect_op_settles j (delete k) = elim (Ordering-cases (bytes_ord.cmp j k)) [
  | inl h ↦ inr (λ o. rw h)
  | inr (inl h) ↦ inl (λ o p. rw h)
  | inr (inr h) ↦ inr (λ o. rw h)
]

effect-Settles : (j : Bytes) (ops : WriteBatch) → Settles j ops
unfolding effect
effect-Settles j [] = inr (λ o. refl)
effect-Settles j (op ∷ ops) = elim (effect-Settles j ops) [
  | inl same ↦ inl (λ o p. same (effect_op j o op) (effect_op j p op))
  | inr keep ↦ elim (effect_op_settles j op) [
    | inl same ↦ inl (λ o p. ap (λ r. effect j r ops) (same o p))
    | inr stay ↦ inr (λ o. keep (effect_op j o op) ∙ stay o)
  ]
]

effect_twice :
    (j : Bytes) (o : Option Bytes) (ops : WriteBatch)
    → effect j (effect j o ops) ops ≡ effect j o ops
effect_twice j o ops = elim (effect-Settles j ops) [
  | inl same ↦ same (effect j o ops) o
  | inr keep ↦ keep (effect j o ops)
]

-- A batch that is applied to its own result on a sorted map changes nothing: a log may be
-- replayed over a state that already holds its effect.
pub apply_ops_twice :
    (m : ByteMap) (ops : WriteBatch) → Sorted m → apply_ops (apply_ops m ops) ops ≡ apply_ops m ops
apply_ops_twice m ops s =
    let once = apply_ops-Sorted m ops s in
    eq_of_get (apply_ops (apply_ops m ops) ops) (apply_ops m ops)
      (apply_ops-Sorted (apply_ops m ops) ops once) once
      λ j.
        get-apply_ops j (apply_ops m ops) ops once
        ∙ ap (λ o. effect j o ops) (get-apply_ops j m ops s)
        ∙ effect_twice j (get j m) ops
        ∙ sym (get-apply_ops j m ops s)

pub apply_ops-append :
    (m : ByteMap) (xs ys : WriteBatch) → apply_ops m (xs ++ ys) ≡ apply_ops (apply_ops m xs) ys
unfolding apply_ops
apply_ops-append m [] ys = refl
apply_ops-append m (op ∷ ops) ys = apply_ops-append (apply_op m op) ops ys

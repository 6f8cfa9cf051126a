-- ===== src/Namespace/Overlay/Pending.antt =====
-- The pending writes of an overlay at each key, and under a scan.
use alefsdb.Prelude.{
  ◌≡◌, refl, ap, ◌∙◌, sym, Bool, true, false, Option, none, some, [], ◌∷◌, ◌++◌, append_assoc,
  append-nil, arith, if◌then◌else◌, inl, inr, subst,
}
use alefsdb.Prelude.Order.{nat_ord, list_ord}
use alefsdb.Prelude.OrdMap.{
  get, Above, Sorted, get-Above, get-insert, get-remove, insert-Sorted, remove-Sorted,
  insert-eq-append, when_eq, Ordering-cases,
}
use alefsdb.Bytes.{Bytes, bytes_ord, starts_with}
use alefsdb.Storage.Batch.{BatchOp, put, delete, WriteBatch, ByteMap}
use alefsdb.Storage.Batch.Scan.{prefixed}
use alefsdb.Storage.Batch.Replay.{effect_op, effect}
use alefsdb.Namespace.Overlay.{
  Pending, pending_op, pending_ops, write_of, batch_of, collect, overlay_row, overlay_rows, shown,
}

effect_op-write_of :
    (j k : Bytes) (v o : Option Bytes)
    → effect_op j o (write_of k v) ≡ when_eq (bytes_ord.cmp j k) v o
unfolding effect_op write_of
effect_op-write_of j k none o = refl
effect_op-write_of j k (some v) o = refl

-- The batch of the pending writes leaves at a key what the overlay shows there.
pub effect-batch_of :
    (j : Bytes) (o : Option Bytes) (m : Pending)
    → Sorted m
    → effect j o (batch_of m) ≡ shown (get j m) o
unfolding effect batch_of shown get
effect-batch_of j o [] s = refl
effect-batch_of j o ((k, v) ∷ m) s =
    ap (λ x. effect j x (batch_of m)) (effect_op-write_of j k v o)
    ∙ elim (Ordering-cases (bytes_ord.cmp j k)) [
      | inl h ↦ rw h (effect-batch_of j o m s.1)
      | inr (inl h) ↦
          let e = bytes_ord.eq_of_cmp j k h in
          rw h (
            effect-batch_of j v m s.1
            ∙ ap (λ x. shown x v) (get-Above j m (subst (λ x. Above x m) (sym e) s.0)))
      | inr (inr h) ↦ rw h (effect-batch_of j o m s.1)
    ]

pending_op-Sorted : (m : Pending) (op : BatchOp) → Sorted m → Sorted (pending_op m op)
unfolding pending_op
pending_op-Sorted m (put k v) s = insert-Sorted k (some v) m s
pending_op-Sorted m (delete k) s = insert-Sorted k none m s

pub pending_ops-Sorted : (m : Pending) (ops : WriteBatch) → Sorted m → Sorted (pending_ops m ops)
unfolding pending_ops
pending_ops-Sorted m [] s = s
pending_ops-Sorted m (op ∷ ops) s =
    pending_ops-Sorted (pending_op m op) ops (pending_op-Sorted m op s)

shown-pending_op :
    (j : Bytes) (o : Option Bytes) (m : Pending) (op : BatchOp)
    → shown (get j (pending_op m op)) o ≡ effect_op j (shown (get j m) o) op
unfolding pending_op effect_op shown
shown-pending_op j o m (put k v) = ground (arith, get-insert j k (some v) m)
shown-pending_op j o m (delete k) = ground (arith, get-insert j k none m)

-- A write through the overlay has its effect on what the overlay shows.
pub shown-pending_ops :
    (j : Bytes) (o : Option Bytes) (m : Pending) (ops : WriteBatch)
    → shown (get j (pending_ops m ops)) o ≡ effect j (shown (get j m) o) ops
unfolding pending_ops effect
shown-pending_ops j o m [] = refl
shown-pending_ops j o m (op ∷ ops) =
    shown-pending_ops j o (pending_op m op) ops
    ∙ ap (λ x. effect j x ops) (shown-pending_op j o m op)

prefixed-keeps-Above : (p j : Bytes) (m : ByteMap) → Above j m → Above j (prefixed p m)
unfolding prefixed
prefixed-keeps-Above p j [] a = tt
prefixed-keeps-Above p j ((k, v) ∷ m) a = ground (arith, prefixed-keeps-Above p j m a.1)

pub prefixed-Sorted : (p : Bytes) (m : ByteMap) → Sorted m → Sorted (prefixed p m)
unfolding prefixed
prefixed-Sorted p [] s = tt
prefixed-Sorted p ((k, v) ∷ m) s =
    ground (arith, prefixed-keeps-Above p k m s.0, prefixed-Sorted p m s.1)

pub get-prefixed :
    (p j : Bytes) (m : ByteMap) → get j (prefixed p m) ≡ (if starts_with p j then get j m else none)
unfolding prefixed get
get-prefixed p j [] = ground arith
get-prefixed p j ((k, v) ∷ m) = ground (arith, get-prefixed p j m, bytes_ord.eq_of_cmp j k)

collect-append : (acc rows : ByteMap) → Sorted (acc ++ rows) → collect acc rows ≡ acc ++ rows
unfolding collect
collect-append acc [] s = sym (append-nil acc)
collect-append acc ((k, v) ∷ rows) s =
    let e = insert-eq-append acc k v rows s in
    let a = append_assoc acc ((k, v) ∷ []) rows in
    ap (λ m. collect m rows) e
    ∙ collect-append (acc ++ (k, v) ∷ []) rows (subst Sorted (sym a) s)
    ∙ a

-- The rows of a sorted map are collected as they are.
pub collect-Sorted : (rows : ByteMap) → Sorted rows → collect [] rows ≡ rows
collect-Sorted rows s = collect-append [] rows s

overlay_row-Sorted :
    (m : ByteMap) (k : Bytes) (v : Option Bytes) → Sorted m → Sorted (overlay_row m k v)
unfolding overlay_row
overlay_row-Sorted m k none s = remove-Sorted k m s
overlay_row-Sorted m k (some v) s = insert-Sorted k v m s

step-Sorted :
    (b : Bool) (m : ByteMap) (k : Bytes) (v : Option Bytes)
    → Sorted m
    → Sorted (if b then overlay_row m k v else m)
step-Sorted true m k v s = overlay_row-Sorted m k v s
step-Sorted false m k v s = s

pub overlay_rows-Sorted :
    (p : Bytes) (m : ByteMap) (pending : Pending) → Sorted m → Sorted (overlay_rows p m pending)
unfolding overlay_rows
overlay_rows-Sorted p m [] s = s
overlay_rows-Sorted p m ((k, v) ∷ pending) s =
    overlay_rows-Sorted p (if starts_with p k then overlay_row m k v else m) pending
      (step-Sorted (starts_with p k) m k v s)

get-overlay_row :
    (j k : Bytes) (v : Option Bytes) (m : ByteMap)
    → Sorted m
    → get j (overlay_row m k v) ≡ when_eq (bytes_ord.cmp j k) v (get j m)
unfolding overlay_row
get-overlay_row j k none m s = get-remove j k m s
get-overlay_row j k (some v) m s = get-insert j k v m

get-step :
    (b : Bool) (j k : Bytes) (v : Option Bytes) (m : ByteMap)
    → Sorted m
    → get j (if b then overlay_row m k v else m)
      ≡ (if b then when_eq (bytes_ord.cmp j k) v (get j m) else get j m)
get-step true j k v m s = get-overlay_row j k v m s
get-step false j k v m s = refl

-- The second loop shows the pending writes at the keys with the prefix.
pub get-overlay_rows :
    (p j : Bytes) (m : ByteMap) (pending : Pending)
    → Sorted m
    → Sorted pending
    → get j (overlay_rows p m pending)
      ≡ (if starts_with p j then shown (get j pending) (get j m) else get j m)
unfolding overlay_rows
get-overlay_rows p j m [] s t = unfold shown get in ground arith
get-overlay_rows p j m ((k, v) ∷ pending) s t =
    get-overlay_rows p j (if starts_with p k then overlay_row m k v else m) pending
      (step-Sorted (starts_with p k) m k v s) t.1
    ∙ rw (get-step (starts_with p k) j k v m s) (elim (Ordering-cases (bytes_ord.cmp j k)) [
      | inl h ↦ unfold get shown in rw h (ground arith)
      | inr (inl h) ↦
          let e = bytes_ord.eq_of_cmp j k h in
          let last = get-Above j pending (subst (λ x. Above x pending) (sym e) t.0) in
          unfold get shown in rw h (ground (arith, last, e))
      | inr (inr h) ↦ unfold get shown in rw h (ground arith)
    ])

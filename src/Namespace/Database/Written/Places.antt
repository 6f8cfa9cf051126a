-- ===== src/Namespace/Database/Written/Places.antt =====
-- What the writes of `set` leave at the keys that a resolution reads.
use alefsdb.Prelude.{
  ℕ, ◌+◌, ◌≡◌, ◌≢◌, refl, ap, ◌∙◌, sym, subst, Bool, true, false, Option, none, some, [], ◌∷◌, ◌++◌,
  ok, ◌>>=◌, >>=-eq-ok, ok_or, if◌then◌else◌, inl, inr,
}
use alefsdb.Prelude.Order.{nat_ord, list_ord}
use alefsdb.Prelude.OrdMap.{when_eq, Ordering-cases}
use alefsdb.Bytes.{Bytes, bytes_ord, same}
use alefsdb.Types.Value.{Value, typename}
use alefsdb.Types.DbPath.{DbPath, as_str}
use alefsdb.Types.Codec.Encode.{encode}
use alefsdb.Storage.Batch.{put, delete, WriteBatch}
use alefsdb.Storage.Batch.Replay.{effect_op, effect}
use alefsdb.Namespace.Keys.{
  meta_next_id, node_key, child_key, type_index_key, encode_id, decode_id, encode_value_node,
  NodeRecord, dir, value,
}
use alefsdb.Namespace.Keys.Apart.{
  IsU64, decode_id-encode_id, node-ne-child, node-ne-index, child-ne-index, child-ne-meta,
}
use alefsdb.Namespace.Errors.{invalid, bad_child_id, missing_node}
use alefsdb.Namespace.Resolve.{Lookup, load_node, next_id_with, decode_node}
use alefsdb.Namespace.Ops.{new_node, replace_ops, place_ops}

pub at_same {ℓ} : {A : Type ℓ} (k : Bytes) (a b : A) → when_eq (bytes_ord.cmp k k) a b ≡ a
at_same k a b = rw (bytes_ord.cmp_refl k) refl

pub at_other {ℓ} :
    {A : Type ℓ} (j k : Bytes) (a b : A) → j ≢ k → when_eq (bytes_ord.cmp j k) a b ≡ b
at_other j k a b n = elim (Ordering-cases (bytes_ord.cmp j k)) [
  | inl h ↦ rw h refl
  | inr (inl h) ↦ absurd (n (bytes_ord.eq_of_cmp j k h))
  | inr (inr h) ↦ rw h refl
]

-- What the writes of `set` do to the keys that a resolution reads: `name` in the node `up` is the
-- node `id`, which holds `enc`, and no other name is lost.
pub record Placed (look : Lookup) (ops : WriteBatch) (up id : ℕ) (name enc : Bytes) : Type 0 where
  pub keeps :
      (a : ℕ) (s raw : Bytes)
      → look (child_key a s) ≡ some raw
      → effect (child_key a s) (look (child_key a s)) ops ≡ some raw
  pub raw : Bytes
  pub child : effect (child_key up name) (look (child_key up name)) ops ≡ some raw
  pub points : decode_id raw ≡ some id
  pub node : effect (node_key id) (look (node_key id)) ops ≡ some (encode_value_node enc)

new_node-Placed :
    (look : Lookup) (id up : ℕ) (name enc type_name : Bytes) (p : DbPath)
    → IsU64 id
    → look (child_key up name) ≡ none
    → Placed look (new_node id up name (encode_value_node enc) type_name p) up id name enc
unfolding new_node effect effect_op
new_node-Placed look id up name enc type_name p u free = record {
  keeps = λ a s raw h.
      let o = look (child_key a s) in
      let off : child_key a s ≢ child_key up name = λ e. absurd (cc (ap look e, free, h)) in
      rw
        (
          at_other (child_key a s) meta_next_id (some (encode_id (id + 1))) o (child-ne-meta a s),
          at_other (child_key a s) (node_key id) (some (encode_value_node enc)) o
              (λ e. node-ne-child id a s (sym e)),
          at_other (child_key a s) (child_key up name) (some (encode_id id)) o off,
          at_other (child_key a s) (type_index_key type_name id) (some (as_str p)) o
              (child-ne-index a id s type_name),
        )
        h;
  raw = encode_id id;
  child =
      rw
        (
          at_same (child_key up name) (some (encode_id id)) (
              when_eq (bytes_ord.cmp (child_key up name) (node_key id))
                (some (encode_value_node enc))
                (when_eq (bytes_ord.cmp (child_key up name) meta_next_id)
                  (some (encode_id (id + 1))) (look (child_key up name)))),
          at_other (child_key up name) (type_index_key type_name id) (some (as_str p))
              (some (encode_id id)) (child-ne-index up id name type_name),
        )
        refl;
  points = decode_id-encode_id id u;
  node =
      rw
        (
          at_same (node_key id) (some (encode_value_node enc)) (
              when_eq (bytes_ord.cmp (node_key id) meta_next_id) (some (encode_id (id + 1)))
                (look (node_key id))),
          at_other (node_key id) (child_key up name) (some (encode_id id))
              (some (encode_value_node enc)) (node-ne-child id up name),
          at_other (node_key id) (type_index_key type_name id) (some (as_str p))
              (some (encode_value_node enc)) (node-ne-index id id type_name),
        )
        refl;
}

-- The row of the old type that a value of another type leaves behind.
abbrev pub old_row : Bool → Bytes → ℕ → WriteBatch
old_row b type_name id = if b then [] else delete (type_index_key type_name id) ∷ []

old_row-child :
    (b : Bool) (type_name : Bytes) (id a : ℕ) (s : Bytes) (o : Option Bytes) (ops : WriteBatch)
    → effect (child_key a s) o (old_row b type_name id ++ ops) ≡ effect (child_key a s) o ops
unfolding effect effect_op
old_row-child true type_name id a s o ops = refl
old_row-child false type_name id a s o ops =
    ap (λ x. effect (child_key a s) x ops)
      (at_other (child_key a s) (type_index_key type_name id) none o
        (child-ne-index a id s type_name))

row_ops-child :
    (id a : ℕ) (s enc type_name row : Bytes) (o : Option Bytes)
    → effect (child_key a s) o (put (node_key id) enc ∷ put (type_index_key type_name id) row ∷ [])
      ≡ o
unfolding effect effect_op
row_ops-child id a s enc type_name row o =
    rw
      (
        at_other (child_key a s) (node_key id) (some enc) o (λ e. node-ne-child id a s (sym e)),
        at_other (child_key a s) (type_index_key type_name id) (some row) o
            (child-ne-index a id s type_name),
      )
      refl

row_ops-node :
    (id : ℕ) (enc type_name row : Bytes) (o : Option Bytes)
    → effect (node_key id) o (put (node_key id) enc ∷ put (type_index_key type_name id) row ∷ [])
      ≡ some enc
unfolding effect effect_op
row_ops-node id enc type_name row o =
    rw
      (
        at_same (node_key id) (some enc) o,
        at_other (node_key id) (type_index_key type_name id) (some row) (some enc)
            (node-ne-index id id type_name),
      )
      refl

pub effect-append :
    (j : Bytes) (o : Option Bytes) (a b : WriteBatch)
    → effect j o (a ++ b) ≡ effect j (effect j o a) b
unfolding effect
effect-append j o [] b = refl
effect-append j o (op ∷ a) b = effect-append j (effect_op j o op) a b

replaced-Placed :
    (look : Lookup) (b : Bool) (id up : ℕ) (name enc raw old_type type_name row : Bytes)
    → look (child_key up name) ≡ some raw
    → decode_id raw ≡ some id
    → Placed look
        (old_row b old_type id
          ++ (put (node_key id) (encode_value_node enc)
              ∷ put (type_index_key type_name id) row
              ∷ []))
        up
        id
        name
        enc
replaced-Placed look b id up name enc raw old_type type_name row h d =
    let keeps : (a : ℕ) (s : Bytes)
        → effect (child_key a s) (look (child_key a s)) _ ≡ look (child_key a s) =
      λ a s.
        old_row-child b old_type id a s (look (child_key a s))
          (put (node_key id) (encode_value_node enc) ∷ put (type_index_key type_name id) row ∷ [])
        ∙ row_ops-child id a s (encode_value_node enc) type_name row (look (child_key a s)) in
    record {
      keeps = λ a s raw' h'. keeps a s ∙ h';
      raw = raw;
      child = keeps up name ∙ h;
      points = d;
      node =
          effect-append (node_key id) (look (node_key id)) (old_row b old_type id)
            (put (node_key id) (encode_value_node enc) ∷ put (type_index_key type_name id) row ∷ [])
          ∙ row_ops-node id (encode_value_node enc) type_name row
              (effect (node_key id) (look (node_key id)) (old_row b old_type id));
    }

-- The writes of `set` below a directory place the value there.
pub place_ops-Placed :
    (look : Lookup) (p : DbPath) (v : Value) (up : ℕ) (name : Bytes) (o : Option Bytes)
    (ops : WriteBatch)
    → ((id : ℕ) → next_id_with look ≡ ok id → IsU64 id)
    → look (child_key up name) ≡ o
    → place_ops look p v up name o ≡ ok ops
    → (id : ℕ) × Placed look ops up id name (encode v)
unfolding place_ops replace_ops
place_ops-Placed look p v up name none ops u free h =
    let (id, e, q) =
      >>=-eq-ok (next_id_with look)
        (λ id. ok (new_node id up name (encode_value_node (encode v)) (typename v) p)) h in
    (
      id,
      subst (λ ops. Placed look ops up id name (encode v)) (cc q)
          (new_node-Placed look id up name (encode v) (typename v) p (u id e) free),
    )
place_ops-Placed look p v up name (some raw) ops u stands h =
    let (id, e, q) =
      >>=-eq-ok (ok_or (invalid bad_child_id) (decode_id raw))
        (λ id. load_node look (invalid missing_node) id >>= λ rec. replace_ops p v id rec) h in
    let (rec, e', q') =
      >>=-eq-ok (load_node look (invalid missing_node) id) (λ rec. replace_ops p v id rec) q in
    (id, replaced rec id (points (decode_id raw) id e) q')
  where
    points : (o : Option ℕ) (id : ℕ) → ok_or (invalid bad_child_id) o ≡ ok id → o ≡ some id
    points none id e = absurd (cc e)
    points (some n) id e = cc e

    replaced :
        (rec : NodeRecord) (id : ℕ)
        → decode_id raw ≡ some id
        → replace_ops p v id rec ≡ ok ops
        → Placed look ops up id name (encode v)
    replaced dir id d q = absurd (cc q)
    replaced (value old_enc) id d q =
        let (old, e, w) =
          >>=-eq-ok (decode_node old_enc)
            (λ old. ok (
              old_row (same (typename old) (typename v)) (typename old) id
              ++ (put (node_key id) (encode_value_node (encode v))
                  ∷ put (type_index_key (typename v) id) (as_str p)
                  ∷ [])))
            q in
        subst (λ ops. Placed look ops up id name (encode v)) (cc w)
          (replaced-Placed look (same (typename old) (typename v)) id up name (encode v) raw
            (typename old) (typename v) (as_str p) stands d)

-- ===== src/Namespace/Database/Written.antt =====
-- `set` followed by `get` (crates/alefs-namespace/src/db.rs).
pub mod Places
pub mod Walks
use alefsdb.Prelude.{
  ℕ, ◌+◌, ◌≡◌, ◌≢◌, refl, ap, ◌∙◌, sym, subst, Bool, true, false, Option, none, some, [], List, ◌∷◌,
  ◌++◌, arith, Result, ok, err, ◌>>=◌, >>=-eq-ok, ok_or, map_err, if◌then◌else◌, Bool-cases, inl,
  inr,
}
use alefsdb.Prelude.Order.{nat_ord, list_ord}
use alefsdb.Prelude.OrdMap.{get, Sorted, when_eq, Ordering-cases}
use alefsdb.Bytes.{Bytes, bytes_ord, text, same}
use alefsdb.Types.Value.{Value, typename}
use alefsdb.Types.DbPath.{DbPath, is_root, as_str, parent, drop_last, last_segment}
use alefsdb.Types.Codec.Encode.{encode}
use alefsdb.Types.Codec.Decode.{decode}
use alefsdb.Types.Codec.Canonical.{IsCanonical}
use alefsdb.Types.Codec.RoundTrip.{decode-encode}
use alefsdb.Storage.Batch.{put, delete, WriteBatch, ByteMap, apply_ops}
use alefsdb.Storage.Batch.Replay.{effect_op, effect, get-apply_ops}
use alefsdb.Storage.Memory.{Storage}
use alefsdb.Namespace.Keys.{
  root_id, meta_next_id, node_key, child_key, type_index_key, encode_id, decode_id,
  encode_value_node, NodeRecord, dir, value, parse_node,
}
use alefsdb.Namespace.Keys.Apart.{
  IsU64, decode_id-encode_id, node-ne-child, node-ne-index, node-ne-meta, child-ne-index,
  child-ne-meta,
}
use alefsdb.Namespace.Errors.{
  NsError, not_found, invalid, bad_child_id, missing_node, no_parent, no_name,
}
use alefsdb.Namespace.Resolve.{
  Lookup, walk, load_node, resolve_with, next_id_with, decode_node, as_parent_missing,
}
use alefsdb.Namespace.Ops.{require_dir, parent_dir, new_node, replace_ops, place_ops, set_ops}
use alefsdb.Namespace.Database.{Entry, value_entry, entry_of, resolve, get_entry, set}
use alefsdb.Namespace.Database.Written.Places.{Placed, place_ops-Placed}
use alefsdb.Namespace.Database.Written.Walks.{
  split_path, parent-drop_last, ok_or-ok, walk-Placed, load_node-value, decode_node-encode,
  parent_dir-walk, resolve_with-walk,
}

-- Writes of `set` that succeed place the value below the parent.
set_ops-Placed :
    (look : Lookup) (p : DbPath) (v : Value) (ops : WriteBatch)
    → ((id : ℕ) → next_id_with look ≡ ok id → IsU64 id)
    → set_ops look p v ≡ ok ops
    → (is_root p ≡ false)
      × (up : ℕ) × (id : ℕ) × (segs : List Bytes) × (name : Bytes) × (p.segments
          ≡ segs ++ name ∷ [])
      × (q : DbPath) × (walk look q root_id segs ≡ ok up)
      × Placed look ops up id name (encode v)
unfolding set_ops
set_ops-Placed look p v ops u h = elim (Bool-cases (is_root p)) [
  | inl r ↦ absurd (cc (rw r at h))
  | inr r ↦
      let (q, at_q, rest) =
        >>=-eq-ok (ok_or (invalid no_parent) (parent p))
          (λ q. ok_or (invalid no_name) (last_segment p.segments) >>= λ name.
            parent_dir look q >>= λ up. place_ops look p v up name (look (child_key up name)))
          (rw r at h) in
      let (name, at_name, rest') =
        >>=-eq-ok (ok_or (invalid no_name) (last_segment p.segments))
          (λ name.
            parent_dir look q >>= λ up. place_ops look p v up name (look (child_key up name)))
          rest in
      let (up, at_up, placed) =
        >>=-eq-ok (parent_dir look q) (λ up. place_ops look p v up name (look (child_key up name)))
          rest' in
      let (id, done) =
        place_ops-Placed look p v up name (look (child_key up name)) ops u refl placed in
      let segs = parent-drop_last p q (ok_or-ok (invalid no_parent) (parent p) q at_q) in
      (
        r,
        up,
        id,
        q.segments,
        name,
        split_path p.segments name
              (ok_or-ok (invalid no_name) (last_segment p.segments) name at_name)
            ∙ ap (λ ss. ss ++ name ∷ []) (sym segs),
        q,
        parent_dir-walk look q up at_up,
        done,
      )
]

module _ (S : Storage) where
  -- A canonical value that `set` stores is what `get` returns at that path, if the map is sorted
  -- and the counter of ids is a `u64`.
  pub get_entry-set :
      (s s' : S.Store) (p : DbPath) (v : Value)
      → Sorted (S.view s)
      → IsCanonical v
      → ((id : ℕ) → next_id_with (S.get_value s) ≡ ok id → IsU64 id)
      → set S s p v ≡ ok s'
      → get_entry S s' p ≡ ok (record { path = p; kind = value_entry; value = some v })
  unfolding set get_entry resolve entry_of
  get_entry-set s s' p v sorted c u h =
      let look = S.get_value s in
      let (ops, e, q) = >>=-eq-ok (set_ops look p v) (λ ops. ok (S.commit s ops)) h in
      let (r, up, id, segs, name, parts, above, w, placed) = set_ops-Placed look p v ops u e in
      let after : (k : Bytes) → S.get_value s' k ≡ effect k (look k) ops = λ k.
        subst (λ t. S.get_value t k ≡ effect k (look k) ops) (cc q)
          (S.get-view (S.commit s ops) k
            ∙ ap (get k) (S.view-commit s ops)
            ∙ get-apply_ops k (S.view s) ops sorted
            ∙ ap (λ o. effect k o ops) (sym (S.get-view s k))) in
      let found =
        resolve_with-walk (S.get_value s') p id (value (encode v)) r
          (ap (walk (S.get_value s') p root_id) parts
            ∙ walk-Placed look (S.get_value s') above p root_id up id segs name placed.raw
                (λ a n o k. after (child_key a n) ∙ placed.keeps a n o k)
                (after (child_key up name) ∙ placed.child) placed.points w)
          (load_node-value (S.get_value s') (not_found (as_str p)) id (encode v)
            (after (node_key id) ∙ placed.node)) in
      rw (found, decode_node-encode v c) refl

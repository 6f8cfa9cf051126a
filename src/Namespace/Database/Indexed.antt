-- ===== src/Namespace/Database/Indexed.antt =====
-- The rows of the type index that `set` and `mkdir` write.
use mathlib.Core.List.{Memᴰ}
use mathlib.Core.List.Memᴰ.{head, tail, cases_cons, not-nil}
use alefsdb.Prelude.{
  ℕ, ◌+◌, ◌≡◌, refl, ap, ◌∙◌, sym, subst, Bool, true, false, Option, none, some, [], List, ◌∷◌,
  ◌++◌, ok, err, ◌>>=◌, >>=-eq-ok, ok_or, map_err, if◌then◌else◌, Bool-cases, inl, inr,
  append_assoc, ok-injective, ap₂,
}
use alefsdb.Prelude.Order.{nat_ord, list_ord}
use alefsdb.Prelude.OrdMap.{get, Sorted, Ordering-cases}
use alefsdb.Bytes.{
  Bytes, bytes_ord, text, same, be_bytes, starts_with, starts_with-append, valid_utf8,
}
use alefsdb.Types.Value.{Value, typename}
use alefsdb.Types.DbPath.{DbPath, is_root, as_str, parent, last_segment, parse}
use alefsdb.Types.DbPath.{IsPath}
use alefsdb.Types.DbPath.RoundTrip.{parse-as_str}
use alefsdb.Types.Codec.Encode.{encode}
use alefsdb.Storage.Batch.{put, WriteBatch, ByteMap}
use alefsdb.Storage.Batch.Replay.{effect_op, effect, get-apply_ops, apply_ops-Sorted}
use alefsdb.Storage.Batch.Scan.{prefixed, scan_prefix-eq-prefixed}
use alefsdb.Storage.Memory.{Storage}
use alefsdb.Namespace.Keys.{
  node_key, child_key, type_index_key, type_index_prefix, encode_value_node, encode_dir_node,
  NodeRecord, dir, value, decode_id, encode_id, meta_next_id,
}
use alefsdb.Namespace.Errors.{
  invalid, already_exists, bad_child_id, missing_node, no_parent, no_name, path,
}
use alefsdb.Namespace.Resolve.{Lookup, load_node, next_id_with, decode_node}
use alefsdb.Namespace.Ops.{parent_dir, new_node, replace_ops, place_ops, set_ops, mkdir_ops}
use alefsdb.Namespace.Database.{
  index_paths, sort_by, insert_by, paths_with_type, set, mkdir, exists,
}
use alefsdb.Namespace.Database.Written.Places.{at_same, effect-append, old_row}

last_put :
    (k v : Bytes) (ops : WriteBatch) (o : Option Bytes) → effect k o (ops ++ put k v ∷ []) ≡ some v
unfolding effect effect_op
last_put k v ops o = effect-append k o ops (put k v ∷ []) ∙ at_same k (some v) (effect k o ops)

-- The writes leave the row of the type `t` that names the path.
abbrev Indexes : WriteBatch → Bytes → DbPath → Type 0
Indexes ops t p =
    (id : ℕ) × ((o : Option Bytes) → effect (type_index_key t id) o ops ≡ some (as_str p))

new_node-Indexes :
    (id up : ℕ) (name node t : Bytes) (p : DbPath) → Indexes (new_node id up name node t p) t p
unfolding new_node
new_node-Indexes id up name node t p = (
  id,
  λ o.
      last_put (type_index_key t id) (as_str p)
        (put meta_next_id (encode_id (id + 1))
          ∷ put (node_key id) node
          ∷ put (child_key up name) (encode_id id)
          ∷ [])
        o,
)

replace_ops-Indexes :
    (p : DbPath) (v : Value) (id : ℕ) (rec : NodeRecord) (ops : WriteBatch)
    → replace_ops p v id rec ≡ ok ops
    → Indexes ops (typename v) p
unfolding replace_ops
replace_ops-Indexes p v id dir ops h = absurd (cc h)
replace_ops-Indexes p v id (value old_enc) ops h =
    let (old, e, q) = >>=-eq-ok (decode_node old_enc) _ h in
    let k = type_index_key (typename v) id in
    let node = put (node_key id) (encode_value_node (encode v)) in
    subst (λ b. Indexes b (typename v) p) (ok-injective _ ops q)
      (
        id,
        λ o.
            effect-append k o (old_row (same (typename old) (typename v)) (typename old) id)
              (node ∷ put k (as_str p) ∷ [])
            ∙ last_put k (as_str p) (node ∷ []) _,
      )

place_ops-Indexes :
    (look : Lookup) (p : DbPath) (v : Value) (up : ℕ) (name : Bytes) (o : Option Bytes)
    (ops : WriteBatch)
    → place_ops look p v up name o ≡ ok ops
    → Indexes ops (typename v) p
unfolding place_ops
place_ops-Indexes look p v up name none ops h =
    let (id, e, q) = >>=-eq-ok (next_id_with look) _ h in
    subst (λ b. Indexes b (typename v) p) (ok-injective _ ops q)
      (new_node-Indexes id up name (encode_value_node (encode v)) (typename v) p)
place_ops-Indexes look p v up name (some raw) ops h =
    let (id, e, q) = >>=-eq-ok (ok_or (invalid bad_child_id) (decode_id raw)) _ h in
    let (rec, f, r) = >>=-eq-ok (load_node look (invalid missing_node) id) _ q in
    replace_ops-Indexes p v id rec ops r

set_ops-Indexes :
    (look : Lookup) (p : DbPath) (v : Value) (ops : WriteBatch)
    → set_ops look p v ≡ ok ops
    → Indexes ops (typename v) p
unfolding set_ops
set_ops-Indexes look p v ops h = elim (Bool-cases (is_root p)) [
  | inl r ↦ absurd (cc (rw r at h))
  | inr r ↦
      let (q, e, h1) = >>=-eq-ok (ok_or (invalid no_parent) (parent p)) _ (rw r at h) in
      let (name, f, h2) = >>=-eq-ok (ok_or (invalid no_name) (last_segment p.segments)) _ h1 in
      let (up, g, h3) = >>=-eq-ok (parent_dir look q) _ h2 in
      place_ops-Indexes look p v up name (look (child_key up name)) ops h3
]

-- A row of the map is among those of its prefix.
get-prefixed :
    (p k v : Bytes) (m : ByteMap)
    → starts_with p k ≡ true
    → get k m ≡ some v
    → Memᴰ (k, v) (prefixed p m)
unfolding get prefixed
get-prefixed p k v [] s h = absurd (cc h)
get-prefixed p k v ((j, w) ∷ m) s h = elim (Ordering-cases (bytes_ord.cmp k j)) [
  | inl c ↦ later (get-prefixed p k v m s (rw c at h))
  | inr (inl c) ↦
      let e = bytes_ord.eq_of_cmp k j c in
      let f : w ≡ v = cc (rw c at h) in
      subst (λ r. Memᴰ r (prefixed p ((j, w) ∷ m))) (ap₂ (λ x y. (x, y)) (sym e) f)
        (first (subst (λ x. starts_with p x ≡ true) e s))
  | inr (inr c) ↦ later (get-prefixed p k v m s (rw c at h))
]
  where
    later : Memᴰ (k, v) (prefixed p m) → Memᴰ (k, v) (prefixed p ((j, w) ∷ m))
    later n = elim (Bool-cases (starts_with p j)) [ inl b ↦ rw b (tail n) | inr b ↦ rw b n ]

    first : starts_with p j ≡ true → Memᴰ (j, w) (prefixed p ((j, w) ∷ m))
    first b = rw b (head refl)

index_paths-Mem :
    (rows : ByteMap) (out : List DbPath) (k v : Bytes) (p : DbPath)
    → parse v ≡ ok p
    → Memᴰ (k, v) rows
    → index_paths rows ≡ ok out
    → Memᴰ p out
unfolding index_paths
index_paths-Mem [] out k v p e m h = absurd (not-nil m)
index_paths-Mem ((j, w) ∷ rows) out k v p e m h = elim (Bool-cases (valid_utf8 w)) [
  | inl u ↦
      let (q, f, h1) = >>=-eq-ok (map_err path (parse w)) _ (rw u at h) in
      let (rest, g, h2) = >>=-eq-ok (index_paths rows) _ h1 in
      subst (λ o. Memᴰ p o) (ok-injective _ out h2)
        (elim (cases_cons m) [
          | inl same_row ↦
              let c : parse w ≡ ok p = subst (λ x. parse x ≡ ok p) (ap (λ r. r.1) same_row) e in
              head (ok-injective p q (sym (ap (map_err path) c) ∙ f))
          | inr n ↦ tail (index_paths-Mem rows rest k v p e n g)
        ])
  | inr u ↦ absurd (cc (rw u at h))
]

insert_by-head :
    (key : DbPath → Bytes) (a : DbPath) (bs : List DbPath) → Memᴰ a (insert_by key a bs)
unfolding insert_by
insert_by-head key a [] = head refl
insert_by-head key a (b ∷ bs) = elim (Ordering-cases (bytes_ord.cmp (key a) (key b))) [
  | inl c ↦ rw (c, insert_by) (head refl)
  | inr (inl c) ↦ rw (c, insert_by) (head refl)
  | inr (inr c) ↦ rw (c, insert_by) (tail (insert_by-head key a bs))
]

insert_by-tail :
    (key : DbPath → Bytes) (a b : DbPath) (bs : List DbPath)
    → Memᴰ a bs
    → Memᴰ a (insert_by key b bs)
unfolding insert_by
insert_by-tail key a b [] m = absurd (not-nil m)
insert_by-tail key a b (c ∷ bs) m = elim (Ordering-cases (bytes_ord.cmp (key b) (key c))) [
  | inl o ↦ rw (o, insert_by) (tail m)
  | inr (inl o) ↦ rw (o, insert_by) (tail m)
  | inr (inr o) ↦
      rw (o, insert_by)
        (elim (cases_cons m) [ inl e ↦ head e | inr n ↦ tail (insert_by-tail key a b bs n) ])
]

sort_by-Mem :
    (key : DbPath → Bytes) (a : DbPath) (bs : List DbPath) → Memᴰ a bs → Memᴰ a (sort_by key bs)
unfolding sort_by
sort_by-Mem key a [] m = absurd (not-nil m)
sort_by-Mem key a (b ∷ bs) m = elim (cases_cons m) [
  | inl e ↦
      subst (λ x. Memᴰ x (sort_by key (b ∷ bs))) (sym e) (insert_by-head key b (sort_by key bs))
  | inr n ↦ insert_by-tail key a b (sort_by key bs) (sort_by-Mem key a bs n)
]

index_key_starts :
    (t : Bytes) (id : ℕ) → starts_with (type_index_prefix t) (type_index_key t id) ≡ true
unfolding type_index_prefix type_index_key
index_key_starts t id =
    let e : text "idx/t/" ++ (t ++ b'/' ∷ []) ++ be_bytes 8 id
        ≡ text "idx/t/" ++ (t ++ b'/' ∷ be_bytes 8 id) =
      append_assoc (text "idx/t/") (t ++ b'/' ∷ []) (be_bytes 8 id)
      ∙ ap (λ r. text "idx/t/" ++ r) (append_assoc t (b'/' ∷ []) (be_bytes 8 id)) in
    subst (λ k. starts_with (type_index_prefix t) k ≡ true) e
      (starts_with-append (type_index_prefix t) (be_bytes 8 id))

mkdir_ops-Indexes :
    (look : Lookup) (p : DbPath) (ops : WriteBatch)
    → mkdir_ops look p ≡ ok ops
    → Indexes ops (text "directory") p
unfolding mkdir_ops
mkdir_ops-Indexes look p ops h =
    let (q, e, h1) = >>=-eq-ok (ok_or (invalid no_parent) (parent p)) _ h in
    let (name, f, h2) = >>=-eq-ok (ok_or (invalid no_name) (last_segment p.segments)) _ h1 in
    let (up, g, h3) = >>=-eq-ok (parent_dir look q) _ h2 in
    let (id, i, h4) = >>=-eq-ok (next_id_with look) _ h3 in
    subst (λ b. Indexes b (text "directory") p) (ok-injective _ ops h4)
      (new_node-Indexes id up name encode_dir_node (text "directory") p)

module _ (S : Storage) where
  -- What a commit has written into the index is listed.
  commit-Indexes :
      (s : S.Store) (ops : WriteBatch) (t : Bytes) (p : DbPath) (out : List DbPath)
      → Sorted (S.view s)
      → IsPath p
      → Indexes ops t p
      → paths_with_type S (S.commit s ops) t ≡ ok out
      → Memᴰ p out
  unfolding paths_with_type
  commit-Indexes s ops t p out sorted path_ok (id, wrote) h =
      let s' = S.commit s ops in
      let k = type_index_key t id in
      let (found, e, q) = >>=-eq-ok (index_paths (S.scan s' (type_index_prefix t))) _ h in
      let view = S.view-commit s ops in
      let sorted' : Sorted (S.view s') =
        subst (λ m. Sorted m) (sym view) (apply_ops-Sorted (S.view s) ops sorted) in
      let at_key : get k (S.view s') ≡ some (as_str p) =
        ap (get k) view ∙ get-apply_ops k (S.view s) ops sorted ∙ wrote (get k (S.view s)) in
      let rows =
        S.scan-view s' (type_index_prefix t)
        ∙ scan_prefix-eq-prefixed (type_index_prefix t) (S.view s') sorted' in
      subst (λ o. Memᴰ p o) (ok-injective _ out q)
        (sort_by-Mem as_str p found (
          index_paths-Mem (S.scan s' (type_index_prefix t)) found k (as_str p) p
            (parse-as_str p path_ok)
            (subst (λ r. Memᴰ (k, as_str p) r) (sym rows)
              (get-prefixed (type_index_prefix t) k (as_str p) (S.view s') (index_key_starts t id)
                at_key))
            e))

  -- After `set` of a well-formed path on a sorted map, `paths_with_type` of the value's type, where
  -- it returns, lists the path.
  pub paths_with_type-set :
      (s s' : S.Store) (p : DbPath) (v : Value) (out : List DbPath)
      → Sorted (S.view s)
      → IsPath p
      → set S s p v ≡ ok s'
      → paths_with_type S s' (typename v) ≡ ok out
      → Memᴰ p out
  unfolding set
  paths_with_type-set s s' p v out sorted path_ok h found =
      let (ops, e, q) = >>=-eq-ok (set_ops (S.get_value s) p v) (λ ops. ok (S.commit s ops)) h in
      commit-Indexes s ops (typename v) p out sorted path_ok
        (set_ops-Indexes (S.get_value s) p v ops e)
        (subst (λ t. paths_with_type S t (typename v) ≡ ok out) (sym (ok-injective _ s' q)) found)

  -- After `mkdir` of a well-formed path that is not the root on a sorted map, `paths_with_type` of
  -- the directories, where it returns, lists the path.
  pub paths_with_type-mkdir :
      (s s' : S.Store) (p : DbPath) (out : List DbPath)
      → Sorted (S.view s)
      → IsPath p
      → is_root p ≡ false
      → mkdir S s p ≡ ok s'
      → paths_with_type S s' (text "directory") ≡ ok out
      → Memᴰ p out
  unfolding mkdir
  paths_with_type-mkdir s s' p out sorted path_ok r h found =
      let (there, a, h1) = >>=-eq-ok (exists S s p) _ (rw r at h) in go there h1
    where
      go :
          (there : Bool)
          → (if there
              then err (already_exists (as_str p))
              else mkdir_ops (S.get_value s) p >>= λ ops. ok (S.commit s ops))
            ≡ ok s'
          → Memᴰ p out
      go true q = absurd (cc q)
      go false q =
          let (ops, e, w) =
            >>=-eq-ok (mkdir_ops (S.get_value s) p) (λ ops. ok (S.commit s ops)) q in
          commit-Indexes s ops (text "directory") p out sorted path_ok
            (mkdir_ops-Indexes (S.get_value s) p ops e)
            (subst (λ t. paths_with_type S t (text "directory") ≡ ok out)
              (sym (ok-injective _ s' w)) found)

-- ===== src/Namespace/Database/Written/Walks.antt =====
-- Walks and resolutions that succeed, and a walk after a write.
use alefsdb.Prelude.{
  ℕ, ◌≡◌, refl, ap, ◌∙◌, sym, subst, false, Option, none, some, [], List, ◌∷◌, ◌++◌, Result, ok,
  err, ◌>>=◌, >>=-eq-ok, ok_or, map_err,
}
use alefsdb.Prelude.Order.{nat_ord, list_ord}
use alefsdb.Bytes.{Bytes, text}
use alefsdb.Types.Value.{Value}
use alefsdb.Types.DbPath.{DbPath, is_root, as_str, parent, drop_last, last_segment}
use alefsdb.Types.Codec.Encode.{encode}
use alefsdb.Types.Codec.Canonical.{IsCanonical}
use alefsdb.Types.Codec.RoundTrip.{decode-encode}
use alefsdb.Namespace.Keys.{
  root_id, node_key, child_key, decode_id, encode_value_node, NodeRecord, dir, value, parse_node,
}
use alefsdb.Namespace.Errors.{NsError, not_found, invalid, bad_child_id}
use alefsdb.Namespace.Resolve.{
  Lookup, walk, load_node, resolve_with, decode_node, as_parent_missing,
}
use alefsdb.Namespace.Ops.{require_dir, parent_dir}

-- A path that has a parent is the parent and a name.
pub split_path :
    (ss : List Bytes) (name : Bytes) → last_segment ss ≡ some name → ss ≡ drop_last ss ++ name ∷ []
unfolding last_segment drop_last
split_path [] name h = absurd (cc h)
split_path (s ∷ []) name h = cc h
split_path (s ∷ t ∷ ss) name h = ap (λ r. s ∷ r) (split_path (t ∷ ss) name h)

abbrev segments_of : Option DbPath → List Bytes
segments_of none = []
segments_of (some q) = q.segments

pub parent-drop_last : (p up : DbPath) → parent p ≡ some up → up.segments ≡ drop_last p.segments
unfolding parent
parent-drop_last p up h = go p.segments h
  where
    go :
        (ss : List Bytes) → parent (record { segments = ss }) ≡ some up → up.segments ≡ drop_last ss
    go [] h = absurd (cc h)
    go (s ∷ ss) h = ap segments_of (sym h)

pub ok_or-ok {ℓ κ} :
    {E : Type ℓ} {A : Type κ} (e : E) (o : Option A) (a : A) → ok_or e o ≡ ok a → o ≡ some a
ok_or-ok e none a h = absurd (cc h)
ok_or-ok e (some b) a h = cc h

-- The first name of a walk that succeeds.
pub walk-some :
    (look : Lookup) (p : DbPath) (from : ℕ) (s : Bytes) (segs : List Bytes) (to : ℕ)
    → walk look p from (s ∷ segs) ≡ ok to
    → (r : Bytes) × (next : ℕ) × (look (child_key from s) ≡ some r)
      × (decode_id r ≡ some next)
      × (walk look p next segs ≡ ok to)
unfolding walk
walk-some look p from s segs to h = go (look (child_key from s)) refl h
  where
    go :
        (o : Option Bytes)
        → look (child_key from s) ≡ o
        → elim o [
          | none ↦ err (not_found (as_str p))
          | some r ↦ ok_or (invalid bad_child_id) (decode_id r) >>= λ next. walk look p next segs
        ]
          ≡ ok to
        → (r : Bytes) × (next : ℕ) × (look (child_key from s) ≡ some r)
          × (decode_id r ≡ some next)
          × (walk look p next segs ≡ ok to)
    go none e h = absurd (cc h)
    go (some r) e h =
        let (next, d, rest) =
          >>=-eq-ok (ok_or (invalid bad_child_id) (decode_id r)) (λ next. walk look p next segs)
            h in
        (r, next, e, ok_or-ok (invalid bad_child_id) (decode_id r) next d, rest)

-- A walk that succeeds goes on through the new name, in a store that keeps the names.
pub walk-Placed :
    (look look' : Lookup) (p q : DbPath) (from up id : ℕ) (segs : List Bytes) (name raw : Bytes)
    → ((a : ℕ) (s r : Bytes) → look (child_key a s) ≡ some r → look' (child_key a s) ≡ some r)
    → look' (child_key up name) ≡ some raw
    → decode_id raw ≡ some id
    → walk look p from segs ≡ ok up
    → walk look' q from (segs ++ name ∷ []) ≡ ok id
unfolding walk
walk-Placed look look' p q from up id [] name raw keeps child points h =
    let e : look' (child_key from name) ≡ some raw =
      subst (λ n. look' (child_key n name) ≡ some raw) (cc h) child in
    rw (e, points) refl
walk-Placed look look' p q from up id (s ∷ segs) name raw keeps child points h =
    let (r, next, e, d, rest) = walk-some look p from s segs up h in
    rw (keeps from s r e, d)
      (walk-Placed look look' p q next up id segs name raw keeps child points rest)

-- What `load_node` of a value's key gives, and `get` of it.
pub load_node-value :
    (look : Lookup) (e : NsError) (id : ℕ) (enc : Bytes)
    → look (node_key id) ≡ some (encode_value_node enc)
    → load_node look e id ≡ ok (value enc)
unfolding load_node encode_value_node parse_node
load_node-value look e id enc h = rw h refl

pub decode_node-encode : (v : Value) → IsCanonical v → decode_node (encode v) ≡ ok v
unfolding decode_node
decode_node-encode v c = rw (decode-encode v c) refl

require_dir-id :
    (up : DbPath) (found : ℕ × NodeRecord) (id : ℕ) → require_dir up found ≡ ok id → found.0 ≡ id
unfolding require_dir
require_dir-id up (i, dir) id h = cc h
require_dir-id up (i, value enc) id h = absurd (cc h)

map_err-ok {ℓ κ} :
    {E : Type ℓ} {A : Type κ} (f : E → E) (r : Result E A) (a : A) → map_err f r ≡ ok a → r ≡ ok a
map_err-ok f (ok b) a h = h
map_err-ok f (err e) a h = absurd (cc h)

-- A path that resolves was walked.
pub walk-resolve_with :
    (look : Lookup) (p : DbPath) (found : ℕ × NodeRecord)
    → resolve_with look p ≡ ok found
    → walk look p root_id p.segments ≡ ok found.0
unfolding resolve_with is_root walk
walk-resolve_with look p found h = go p.segments h
  where
    go :
        (ss : List Bytes)
        → resolve_with look (record { segments = ss }) ≡ ok found
        → walk look (record { segments = ss }) root_id ss ≡ ok found.0
    go [] h =
        let (rec, e, q) =
          >>=-eq-ok (load_node look (not_found (text "/")) root_id) (λ rec. ok (root_id, rec)) h in
        let pair : (root_id, rec) ≡ found = cc q in ap (λ f. ok f.0) pair
    go (s ∷ ss) h =
        let q : DbPath = record { segments = s ∷ ss } in
        let (id, e, rest) =
          >>=-eq-ok (walk look q root_id (s ∷ ss))
            (λ id. load_node look (not_found (as_str q)) id >>= λ rec. ok (id, rec)) h in
        let (rec, e', last) =
          >>=-eq-ok (load_node look (not_found (as_str q)) id) (λ rec. ok (id, rec)) rest in
        let pair : (id, rec) ≡ found = cc last in e ∙ ap (λ f. ok f.0) pair

-- The walk to a directory that `parent_dir` returns.
pub parent_dir-walk :
    (look : Lookup) (up : DbPath) (id : ℕ)
    → parent_dir look up ≡ ok id
    → walk look up root_id up.segments ≡ ok id
unfolding parent_dir
parent_dir-walk look up id h =
    let (found, e, q) =
      >>=-eq-ok (map_err (as_parent_missing up) (resolve_with look up)) (require_dir up) h in
    walk-resolve_with look up found
      (map_err-ok (as_parent_missing up) (resolve_with look up) found e)
    ∙ ap ok (require_dir-id up found id q)

pub resolve_with-walk :
    (look : Lookup) (p : DbPath) (id : ℕ) (rec : NodeRecord)
    → is_root p ≡ false
    → walk look p root_id p.segments ≡ ok id
    → load_node look (not_found (as_str p)) id ≡ ok rec
    → resolve_with look p ≡ ok (id, rec)
unfolding resolve_with
resolve_with-walk look p id rec r w l = rw (r, w, l) refl

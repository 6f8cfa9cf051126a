-- ===== src/Namespace/Open.antt =====
-- `Database::open` and `rebuild_type_index`.
use alefsdb.Prelude.{
  ℕ, zero, suc, Bool, true, false, Option, none, some, List, [], ◌∷◌, ◌++◌, Result, ok, err, ◌>>=◌,
  map_err, if◌then◌else◌,
}
use alefsdb.Bytes.{Bytes, text, same, be_bytes}
use alefsdb.Types.DbPath.{DbPath, root, join, as_str}
use alefsdb.Storage.Batch.{put, delete, WriteBatch, ByteMap}
use alefsdb.Storage.Memory.{Storage}
use alefsdb.Namespace.Keys.{type_index_key, NodeRecord, dir, value}
use alefsdb.Namespace.Errors.{NsError, path}
use alefsdb.Namespace.Resolve.{node_type_name}
use alefsdb.Namespace.Database.{EntryKind, ensure_root, resolve, list}
use alefsdb.Namespace.Walk.{WalkError, ns, out_of_fuel}

abbrev pub index_version : ℕ
index_version = 1

unfoldable pub version_key : Bytes
version_key = text "meta/type_index_version"

unfoldable pub version_op : WriteBatch
version_op = put version_key (be_bytes 8 index_version) ∷ []

-- The test of `needs`.
unfoldable pub is_outdated : Option Bytes → Bool
is_outdated none = true
is_outdated (some v) = if same v (be_bytes 8 index_version) then false else true

unfoldable pub deleted_rows : ByteMap → WriteBatch
deleted_rows [] = []
deleted_rows ((k, v) ∷ rows) = delete k ∷ deleted_rows rows

-- The children go on the stack in their order, so that the last is popped first.
unfoldable pub push_children :
    DbPath → List (Bytes × EntryKind) → List DbPath → Result NsError (List DbPath)
push_children p [] stack = ok stack
push_children p ((name, kind) ∷ rows) stack =
    map_err path (join p name) >>= λ child. push_children p rows (child ∷ stack)

module _ (S : Storage) where
  -- What a path on the stack adds to it.
  unfoldable pub push_below :
      S.Store → DbPath → NodeRecord → List DbPath → Result NsError (List DbPath)
  push_below s p dir stack = list S s p >>= λ rows. push_children p rows stack
  push_below s p (value enc) stack = ok stack

  -- The `while let` over the stack, top first, on fuel: a unit for each path.
  unfoldable pub index_loop : S.Store → ℕ → List DbPath → WriteBatch → Result WalkError WriteBatch
  index_loop s f [] batch = ok batch
  index_loop s zero (p ∷ stack) batch = err out_of_fuel
  index_loop s (suc f) (p ∷ stack) batch = do
    (id, rec) ← map_err (λ e. ns e) (resolve S s p)
    ty ← map_err (λ e. ns e) (node_type_name rec)
    rest ← map_err (λ e. ns e) (push_below s p rec stack)
    index_loop s f rest (batch ++ put (type_index_key ty id) (as_str p) ∷ [])

  unfoldable pub rebuild_type_index : ℕ → S.Store → Result WalkError S.Store
  rebuild_type_index fuel s =
      index_loop s fuel (root ∷ []) (deleted_rows (S.scan s (text "idx/t/"))) >>= λ batch.
      ok (S.commit s batch)

  unfoldable pub mark_version : S.Store → S.Store
  mark_version s = S.commit s version_op

  unfoldable pub bring_index : ℕ → S.Store → Result WalkError S.Store
  bring_index fuel s = elim (is_outdated (S.get_value s version_key)) [
    | true ↦ rebuild_type_index fuel s >>= λ t. ok (mark_version t)
    | false ↦ ok s
  ]

  unfoldable pub open_database : ℕ → S.Store → Result WalkError S.Store
  open_database fuel s = bring_index fuel (ensure_root S s)

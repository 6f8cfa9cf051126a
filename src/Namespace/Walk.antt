-- ===== src/Namespace/Walk.antt =====
-- The walks over the directories of a store: `walk_values` and `export_json` of `Database`. Each is
-- on fuel, a unit for each directory on the way down.
use alefsdb.Prelude.{
  ℕ, zero, suc, Option, none, some, List, [], ◌∷◌, ◌++◌, Result, ok, err, ◌>>=◌, map_err,
}
use alefsdb.Bytes.{Bytes, text}
use alefsdb.Types.Value.{Value}
use alefsdb.Types.DbPath.{DbPath, root, join}
use alefsdb.Storage.Memory.{Storage}
use alefsdb.Namespace.Errors.{NsError, path}
use alefsdb.Namespace.Database.{EntryKind, directory, value_entry, Entry, get_entry, list}
use alefsdb.Namespace.Json.Print.{ShowF64, json_str, value_to_json}

pub data WalkError : Type 0 where
  ns : NsError → WalkError
  -- `unwrap` of the value of an entry that has none
  no_value : WalkError
  -- only of the model
  out_of_fuel : WalkError

-- The loop over the children of a directory, with the name and what the walk makes of each.
unfoldable pub each_child {ℓ} :
    {A : Type ℓ}
    → (DbPath → Result WalkError A)
    → DbPath
    → List (Bytes × EntryKind)
    → Result WalkError (List (Bytes × A))
each_child walk p [] = ok []
each_child walk p ((name, kind) ∷ rows) = map_err (λ e. ns (path e)) (join p name) >>= λ child.
    walk child >>= λ a. each_child walk p rows >>= λ rest. ok ((name, a) ∷ rest)

unfoldable pub joined : List (Bytes × List (DbPath × Value)) → List (DbPath × Value)
joined [] = []
joined ((name, vs) ∷ rest) = vs ++ joined rest

-- `{name}: {body}`, with `, ` between the parts.
unfoldable pub more_parts : List (Bytes × Bytes) → Bytes
more_parts [] = []
more_parts ((name, body) ∷ rest) =
    text ", " ++ json_str name ++ text ": " ++ body ++ more_parts rest

unfoldable pub parts : List (Bytes × Bytes) → Bytes
parts [] = []
parts ((name, body) ∷ rest) = json_str name ++ text ": " ++ body ++ more_parts rest

unfoldable pub exported_dir : List (Bytes × Bytes) → Bytes
exported_dir children = text "{\"__dir\": {" ++ parts children ++ text "}}"

unfoldable pub exported_value : ShowF64 → Option Value → Result WalkError Bytes
exported_value show_f64 (some v) = ok (value_to_json show_f64 v)
exported_value show_f64 none = err no_value

-- A value entry of `walk_rec`.
unfoldable pub walked_value : DbPath → Option Value → List (DbPath × Value)
walked_value p (some v) = (p, v) ∷ []
walked_value p none = []

module _ (S : Storage) (s : S.Store) where
  unfoldable pub entry_at : DbPath → Result WalkError Entry
  entry_at p = map_err (λ e. ns e) (get_entry S s p)

  unfoldable pub rows_at : DbPath → Result WalkError (List (Bytes × EntryKind))
  rows_at p = map_err (λ e. ns e) (list S s p)

  unfoldable pub walk_rec : ℕ → DbPath → Result WalkError (List (DbPath × Value))
  walk_rec zero p = err out_of_fuel
  walk_rec (suc f) p = entry_at p >>= λ e. elim e.kind [
    | directory ↦ rows_at p >>= λ rows. each_child (walk_rec f) p rows >>= λ out. ok (joined out)
    | value_entry ↦ ok (walked_value p e.value)
  ]

  unfoldable pub walk_values : ℕ → Result WalkError (List (DbPath × Value))
  walk_values fuel = walk_rec fuel root

  unfoldable pub export_node : ShowF64 → ℕ → DbPath → Result WalkError Bytes
  export_node show_f64 zero p = err out_of_fuel
  export_node show_f64 (suc f) p = entry_at p >>= λ e. elim e.kind [
    | directory ↦ rows_at p >>= λ rows.
        each_child (export_node show_f64 f) p rows >>= λ out. ok (exported_dir out)
    | value_entry ↦ exported_value show_f64 e.value
  ]

  unfoldable pub export_json : ShowF64 → ℕ → Result WalkError Bytes
  export_json show_f64 fuel = export_node show_f64 fuel root

-- ===== src/Namespace/Port.antt =====
-- `Database::import_json` and `import_node`. What was stored before an error stays stored: an import
-- returns the store and the result. `trim` of the standard library is a parameter.
use alefsdb.Prelude.{
  Bool, true, false, not, ◌&&◌, ◌∷◌, Result, ok, err, ◌>>=◌, map_err, if◌then◌else◌,
}
use alefsdb.Bytes.{Bytes, text, same}
use alefsdb.Types.DbPath.{DbPath, root, is_root, join, parse}
use alefsdb.Storage.Memory.{Storage}
use alefsdb.Query.Parse.Tokens.{ParseF64}
use alefsdb.Namespace.Errors.{NsError, path, invalid, bad_json, dir_not_object, root_not_object}
use alefsdb.Namespace.Database.{exists, mkdir, set}
use alefsdb.Namespace.Json.{JsonVal, json_object, JsonFields, no_json_fields, json_field}
use alefsdb.Namespace.Json.Parse.{parse_json_value}
use alefsdb.Namespace.Json.Convert.{json_to_value}

-- The path of a child: below the root its text is parsed.
unfoldable pub child_path : DbPath → Bytes → Result NsError DbPath
child_path p k = map_err path (if is_root p then parse (b'/' ∷ k) else join p k)

module _ (S : Storage) (parse_f64 : ParseF64) where
  abbrev pub Outcome : Type 0
  Outcome = S.Store × Result NsError (Unit {0})

  -- An operation that changes nothing when it fails.
  abbrev pub attempt : S.Store → Result NsError S.Store → Outcome
  attempt s (ok t) = (t, ok tt)
  attempt s (err e) = (s, err e)

  -- What follows an outcome, if it is no error.
  abbrev pub and_then : Outcome → (S.Store → Outcome) → Outcome
  and_then (s, ok u) rest = rest s
  and_then (s, err e) rest = (s, err e)

  unfoldable pub put_value : S.Store → DbPath → JsonVal → Outcome
  put_value s p v = attempt s (json_to_value parse_f64 v >>= set S s p)

  -- The directory of a `__dir`, which is made where it is missing.
  unfoldable pub ensure_dir : S.Store → DbPath → Bool → Outcome
  ensure_dir s p at_root =
      if not at_root && not (is_root p)
      then attempt s (exists S s p >>= λ there. if there then ok s else mkdir S s p)
      else (s, ok tt)

  unfoldable mutual
    pub import_node : S.Store → DbPath → JsonVal → Bool → Outcome
    import_node s p (json_object (json_field k (json_object c) no_json_fields)) at_root =
        elim (same k (text "__dir")) [
          | true ↦ and_then (ensure_dir s p at_root) λ t. import_fields t p c
          | false ↦ elim at_root [
            | true ↦ import_fields s root (json_field k (json_object c) no_json_fields)
            | false ↦ put_value s p (json_object (json_field k (json_object c) no_json_fields))
          ]
        ]
    import_node s p (json_object (json_field k v no_json_fields)) at_root =
        elim (same k (text "__dir")) [
          | true ↦ (s, err (invalid dir_not_object))
          | false ↦ elim at_root [
            | true ↦ import_fields s root (json_field k v no_json_fields)
            | false ↦ put_value s p (json_object (json_field k v no_json_fields))
          ]
        ]
    import_node s p (json_object m) at_root = elim at_root [
      | true ↦ import_fields s root m
      | false ↦ put_value s p (json_object m)
    ]
    import_node s p v at_root = elim at_root [
      | true ↦ (s, err (invalid root_not_object))
      | false ↦ put_value s p v
    ]

    -- The loop over the fields of a directory.
    pub import_fields : S.Store → DbPath → JsonFields → Outcome
    import_fields s p no_json_fields = (s, ok tt)
    import_fields s p (json_field k v m) = elim (child_path p k) [
      | err e ↦ (s, err e)
      | ok child ↦ and_then (import_node s child v false) λ t. import_fields t p m
    ]

  unfoldable pub import_parsed : S.Store → Result NsError JsonVal → Outcome
  import_parsed s (ok v) = import_node s root v true
  import_parsed s (err e) = (s, err e)

  unfoldable pub import_json : (Bytes → Bytes) → S.Store → Bytes → Outcome
  import_json trim s json =
      import_parsed s (map_err (λ e. invalid (bad_json e)) (parse_json_value parse_f64 (trim json)))

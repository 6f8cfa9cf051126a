-- ===== src/Namespace/Errors.antt =====
-- `NsError` (crates/alefs-namespace/src/error.rs), each message by a constructor with what it prints.
use alefsdb.Bytes.{Bytes}
use alefsdb.Types.DbPath.{PathError}
use alefsdb.Types.Codec.{CodecError}
use alefsdb.Namespace.Keys.{NodeError}
use alefsdb.Namespace.Json.{JsonError, HexError}

-- The messages of `NsError::Invalid`.
pub data Reason : Type 0 where
  missing_next_id bad_next_id bad_child_id missing_node missing_child_node : Reason
  no_parent no_name set_at_root delete_root : Reason
  directory_not_empty : Bytes → Reason
  bad_node : NodeError → Reason
  idx_path_utf8 child_name_utf8 : Reason
  bad_json : JsonError → Reason
  bad_hex_text : HexError → Reason
  bad_float_key dir_not_object root_not_object : Reason

pub data NsError : Type 0 where
  path : PathError → NsError
  codec : CodecError → NsError
  not_found already_exists not_directory is_directory parent_missing : Bytes → NsError
  -- a path and what it is not
  type_mismatch : Bytes → Bytes → NsError
  invalid : Reason → NsError

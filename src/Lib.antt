-- ===== src/Lib.antt =====
-- alefsdb: a database of typed values at paths, on a key-value store with a write-ahead log.
--
-- The program's parts, by their files under crates/:
--   * alefs-types: scalars and containers (value.rs), their binary encoding (codec.rs) and absolute
--     paths (path.rs). Here: Types.Value, Types.Codec, Types.DbPath.
--   * alefs-storage: write batches (batch.rs), the trait `Storage` (lib.rs), the map in memory
--     (memory.rs) and the store with a log and a checkpoint (wal.rs). Here: Storage.Batch,
--     Storage.Memory, Storage.Wal.
--   * alefs-namespace: the layout of the keys (keys.rs), the operations on paths (db.rs) and
--     transactions over an overlay (txn.rs). Here: Namespace.Keys, Namespace.Resolve (from a path to
--     its node), Namespace.Ops (what an operation writes), Namespace.Containers (updates inside a
--     value), Namespace.Database, Namespace.Walk (walks and the export), Namespace.Open (open and the
--     rebuilt type index), Namespace.Json (the text of values and its reader), Namespace.Port (the
--     import) and Namespace.Overlay, which take any store of the interface Storage.Memory.Storage as
--     a parameter.
--   * alefs-query: expressions (ast.rs), the parser of their text (parse.rs), their evaluation and
--     globs (eval.rs). Here: Query.Ast, Query.Parse (Tokens, Parser), Query.Glob, Query.Predicates,
--     Query.Eval, Query.Execute (the walk over all entries and execute).
--   * alefs-server: messages (protocol.rs) and their handling (handle.rs). Here: Server.Protocol,
--     Server.Framing (the frames on the socket), Server.Values (the operations of a batch),
--     Server.Store (what the server asks of its store), Server.Action and
--     Server.Mutations (the requests that change the database in place) and Server.Handle.
--   * alefs-fuse: the file system (lib.rs). Here, of its state, Fuse.Inodes (the table of inodes) and
--     Fuse.Buffers (the pending writes), and Fuse.Text (the text of scalars); not its callbacks.
--   * alefsdb, alefs-bench: the command line and the benchmarks. They are not modelled.
--
-- The parts call downwards only: a request becomes operations of the namespace, an operation
-- becomes reads of the store and one batch of writes, and a batch becomes one record of the log.
--
-- How the code is rendered:
--   * A byte is a number, a `String` is the list of its UTF-8 bytes and a `Vec<u8>` is a list of
--     bytes. A fixed-width integer is written as its bytes, `le_bytes` and `be_bytes`, which keep
--     the wrap-around; lengths are taken modulo 2^32 where the source writes `as u32`. A float is
--     its 64 bits, which is how the encoding and the order of scalars see it.
--   * A `BTreeMap` is the list of its entries in the order of their keys (Prelude.OrdMap), with
--     `insert`, `remove` and `get` that stop at the first key that is not less.
--   * `Result` is a data type with its bind (Prelude.Results). An error keeps what its message
--     prints.
--   * The files of a store are a record of two optional byte strings (Storage.Wal.Store.Disk). A
--     call of the file system is taken to succeed; a crash is given by the bytes that it leaves:
--     any prefix of a record behind the log, or the new checkpoint beside the old log.
--   * A parser over characters runs over the bytes: its tests are on ASCII characters, and all other
--     characters are copied whole. The reading and the text of a float are parameters.
--   * The mutex of the server runs one request at a time: a request is a step from the store and the
--     counters to the next ones (Server.Handle).
--   * The checksum is computed bit by bit, as the source does.
--
-- Fuel: `decode_value` takes one unit for each level of nesting, and `decode` gives it one more than
-- the length of the input, which is enough for every encoding (decode-encode). `replay_loop` takes
-- one unit for each record, and `replay_wal` gives it one more than there are bytes
-- (replay_loop-fuel). The tokenizer takes one unit for each round and the descent one for each call,
-- with one more than there are bytes and four for each token (parse_query-total). The reader of JSON
-- takes one for each value and each round of a loop. The walks over directories take one for each
-- directory on the way down, and the rebuilding of the type index one for each path: the fuel is an
-- argument, since a damaged store can have a directory below itself, where the code does not return.
--
-- Not modelled: failures of the file system and of flushes, locking, the callbacks of the file
-- system on the namespace, serde_json, the server's accept loop with its threads and signals,
-- `as_f64` and `from_f64` of a scalar, the messages' texts, and the parts that are named above.

pub mod Prelude
pub mod Bytes
pub mod Types
pub mod Storage
pub mod Namespace
pub mod Query
pub mod Server
pub mod Fuse
mod Tests

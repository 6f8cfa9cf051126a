-- ===== src/Query.antt =====
-- The crate `alefs-query`: expressions over the entries of a database.
pub mod Ast
pub mod Glob
pub mod Predicates
pub mod Parse
pub mod Eval
pub mod Execute

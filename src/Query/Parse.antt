-- ===== src/Query/Parse.antt =====
-- The parser of queries (crates/alefs-query/src/parse.rs).
pub mod Tokens
pub mod Parser
pub mod Print
pub mod ReadBack
pub mod Written
pub mod Lexing
pub mod RoundTrip
pub mod Termination

-- ===== src/Tests.antt =====
-- Runs on concrete inputs, and each theorem of the header's list at an input that it covers.
mod Paths
mod Values
mod Logs
mod Graph
mod Queries
mod Parsing
mod Requests
mod Files

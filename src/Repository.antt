-- ===== src/Repository.antt =====
-- src/lib/query_repository.cc: the source of the queries.
pub mod Dns
pub mod Line
pub mod Reader
pub mod State
pub mod Requests
pub mod Preload
pub mod Cycle
pub mod Cursor
pub mod Streaming
pub mod Unchanged

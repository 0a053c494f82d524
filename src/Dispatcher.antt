-- ===== src/Dispatcher.antt =====
-- src/lib/dispatcher.cc: the window of outstanding queries and the callbacks that refill it.
pub mod Types
pub mod Query
pub mod Loop
pub mod Session
pub mod Calls
pub mod Protocol
pub mod Settings
pub mod Numbering
pub mod Invariant
pub mod Spec
pub mod Refine
pub mod Collision
pub mod Drain
pub mod Refusals

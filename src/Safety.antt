-- ===== src/Safety.antt =====
-- Memory safety: an invariant of the tables and the heap, and that every function keeps it and does
-- nothing undefined.
pub mod Scope
pub mod Held
pub mod Steps
pub mod Invariant
pub mod Registry
pub mod Laws
pub mod Callbacks
pub mod Options
pub mod Commands
pub mod Tracing
pub mod Processes
pub mod Opening
pub mod Closing
pub mod Running
pub mod Stepping
pub mod Nested
pub mod Reachable

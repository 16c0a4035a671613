-- ===== src/Commands.antt =====
-- The section "Command implementations" of generic/dtrace.c, a function to a command, and what
-- `Dtrace_Init` binds to each name.
pub mod Open
pub mod Configure
pub mod Programs
pub mod Processes
pub mod Tracing
pub mod Dispatch

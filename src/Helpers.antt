-- ===== src/Helpers.antt =====
-- The section "Helpers" of generic/dtrace.c, and the macros above it.
pub mod Format
pub mod Options
pub mod Registry
pub mod Checks

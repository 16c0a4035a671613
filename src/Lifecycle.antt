-- ===== src/Lifecycle.antt =====
-- The section "Module (de)initialization" of generic/dtrace.c: Dtrace_Init, onDestroy, Dtrace_DeInit.
pub mod Init
pub mod DeInit
pub mod Laws

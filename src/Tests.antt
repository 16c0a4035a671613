-- ===== src/Tests.antt =====
-- Runs of the model at concrete inputs.
mod Setup
mod Runs
mod Texts
mod Sessions
mod Examples
mod Notices
mod Tracking
mod Nesting
mod Darwin
mod Steps
mod Parts
mod Threads

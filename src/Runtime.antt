-- ===== src/Runtime.antt =====
-- The structures in src/runtime that generated code calls.
pub mod Run
pub mod Tags
pub mod Probe
pub mod Scan
pub mod Comparator
pub mod SimpleKey
pub mod StringKey
pub mod Atomic
pub mod DirectLookup
pub mod Materializer
pub mod Memory

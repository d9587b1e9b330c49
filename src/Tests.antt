-- ===== src/Tests.antt =====
-- Runs of the modelled code on small inputs, and its theorems at such inputs.
pub mod HashTables
pub mod AtomicTable
pub mod Chunks
pub mod Relations
pub mod Pipelines
pub mod Fusion
pub mod Swimlanes
pub mod Plans
pub mod CodeOrder

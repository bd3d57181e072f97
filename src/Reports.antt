-- ===== src/Reports.antt =====
-- The reports of a job (app/v2/reports.py): their records (Data), their store (Saved, which is
-- app/v2/persistence.py), and the stages that make them.
pub mod Data
pub mod Saved
pub mod Excerpt
pub mod Writing
pub mod Extraction
pub mod Batch
pub mod Pipeline

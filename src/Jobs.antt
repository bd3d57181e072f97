-- ===== src/Jobs.antt =====
-- The report jobs of app/v2/reports.py: `Data` has the document's parts, `Doc` the document.
pub mod Data
pub mod Doc
pub mod Steps
pub mod Worker
pub mod Claims
pub mod Finishing
pub mod Progress
pub mod Dispatch

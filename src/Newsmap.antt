-- ===== src/Newsmap.antt =====
-- The news map of app/v2/maps.py: `Data` has its document and the pure helpers, `Descendants` the
-- closure under parent links, `Edit` what the requests change in a loaded document, and the other
-- modules what holds of these.
pub mod Data
pub mod Descendants
pub mod Edit
pub mod Restore
pub mod Create
pub mod Tree
pub mod WellFormed

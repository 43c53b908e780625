-- ===== src/Data.antt =====
-- web/src/data: the modules between the screens and core.
pub mod Session
pub mod Upload
pub mod Imports
pub mod Validation
pub mod Dedup
pub mod Review
pub mod Report
pub mod Gate

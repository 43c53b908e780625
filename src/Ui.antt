-- ===== src/Ui.antt =====
-- web/src/ui: what belongs to the reader.
pub mod Period
pub mod Storage
pub mod PeriodPreference
pub mod Preferences
pub mod StateChip

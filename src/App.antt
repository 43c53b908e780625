-- ===== src/App.antt =====
-- web/src/app: the application's screens, and the functions behind them.
pub mod LineName
pub mod CategoryName
pub mod CategoryTree
pub mod ReviewScreen
pub mod Charts
pub mod Batch
pub mod Layout
pub mod FirstRun
pub mod PeriodPicker
pub mod ReportScreen
pub mod Upload
pub mod Home
pub mod ImportsScreen

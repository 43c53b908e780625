-- ===== src/App/Charts.antt =====
-- web/src/app/charts: what the report's charts are drawn from. The vendored charts, ECharts and the
-- markup are not modelled: each chart is the rows or the graph that the code computes for it.
pub mod Numbers
pub mod Support
pub mod Lines
pub mod MoneyFlow
pub mod Periods
pub mod Expenses
pub mod Trend
pub mod Shell

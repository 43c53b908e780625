-- ===== src/Examples.antt =====
-- The theorems at concrete inputs.
mod Figures
mod Names
mod Pages
mod Calls
mod Screens
mod Charts
mod Frame
mod Reports

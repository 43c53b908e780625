-- ===== src/Wire.antt =====
-- web/src/gen: the messages that core and the client exchange.
pub mod Imports
pub mod Report
pub mod Review
pub mod Identity

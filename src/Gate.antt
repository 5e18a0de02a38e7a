-- ===== src/Gate.antt =====
-- gate.py: the decision whether a push may pass, and its record.
pub mod Decide
pub mod Record
pub mod Outcomes
pub mod Recorded
pub mod Open
pub mod Latest
pub mod Passing

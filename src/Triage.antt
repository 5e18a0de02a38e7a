-- ===== src/Triage.antt =====
-- triage.py: validation of a stored review, the audit floors, and the verbs that write the ledger.
pub mod Result
pub mod Artifact
pub mod Checked
pub mod Floors
pub mod Doors
pub mod Verbs
pub mod Audit
pub mod Clearing
pub mod Open
pub mod Refuter
pub mod Adopt
pub mod Shown

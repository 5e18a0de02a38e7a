-- ===== src/Reviews.antt =====
-- The life of a review's row in store.py: how it is normalised, reserved, finished, failed and retired.
pub mod Record
pub mod Table
pub mod Policy
pub mod Evidence
pub mod Reserve
pub mod Lineage
pub mod Finalize
pub mod Publish
pub mod Keys
pub mod Untouched
pub mod Normal
pub mod Agreement
pub mod Rows
pub mod Fresh
pub mod Lease
pub mod Suppression
pub mod Upheld
pub mod Final
pub mod Finish
pub mod Sweep
pub mod Steps
pub mod Sound
pub mod Saving
pub mod Reachable
pub mod Terminal
pub mod Sweeping
pub mod Budgeted

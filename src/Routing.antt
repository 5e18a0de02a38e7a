-- ===== src/Routing.antt =====
-- routing.py: which reviewer heads a review that names none.
pub mod Family
pub mod Score
pub mod Pick
pub mod Best
pub mod Capacity
pub mod Loads
pub mod Shared
pub mod Picked

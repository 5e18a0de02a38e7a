-- ===== src/Capacity.antt =====
-- Fair review capacity: capacity.py, and the `capacity_*` methods of store.py.
pub mod Views
pub mod Fifo
pub mod Position
pub mod Rows
pub mod Moves
pub mod Reclaim
pub mod Update
pub mod Admission
pub mod Bounds
pub mod Effects
pub mod Steps
pub mod Reachable
pub mod Limit
pub mod Terminal
pub mod Liveness
pub mod Spared

-- ===== src/Batching.antt =====
-- batching.py: the split of an over-budget diff into review batches.
pub mod Lines
pub mod Labels
pub mod Split
pub mod Coverage
pub mod Packing
pub mod Budget
pub mod Small
pub mod Regions

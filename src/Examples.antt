-- ===== src/Examples.antt =====
-- Concrete inputs: the tests of the model, and each theorem applied to one of them.
mod Host
mod Slots
mod Queue
mod Diffs
mod Texts
mod Reviews
mod Pushes
mod Lifecycle
mod Routes
mod Refs

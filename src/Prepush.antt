-- ===== src/Prepush.antt =====
-- dispatch.py: what git hands to the pre-push hook.
pub mod Refs
pub mod Classes

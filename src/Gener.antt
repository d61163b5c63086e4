-- ===== src/Gener.antt =====
-- The generation of forms from the records of an index: src/gener/generation_service.c.
pub mod Service
pub mod Visits
pub mod Described
pub mod Walk
pub mod Called
pub mod Kept
pub mod Examples

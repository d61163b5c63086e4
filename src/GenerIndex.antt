-- ===== src/GenerIndex.antt =====
-- The generation index, src/api/gener_index.c: a file of lemmas, blocks, records and strings.
pub mod Bytes
pub mod Format
pub mod LittleEndian
pub mod Open
pub mod Lookup
pub mod Reads
pub mod Sections
pub mod Safety
pub mod Tables
pub mod WellFormed
pub mod Sorted
pub mod Search
pub mod Navigate
pub mod Examples

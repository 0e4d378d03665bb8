-- ===== src/Index.antt =====
-- The index of a volume, from lbas to blocks (volume/index_*.hpp).
pub mod Key
pub mod Value
pub mod FixedTable
pub mod Atomicity
pub mod Ranges
pub mod PrefixTable
pub mod Agreement
pub mod Tables
mod Tests

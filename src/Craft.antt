-- ===== src/Craft.antt =====
-- The replica device of the CRAFT protocol (craft/).
pub mod Lsns
pub mod Journal
pub mod Device
pub mod Write
pub mod Admission
pub mod Interleaving
pub mod Coverage
pub mod Fetch
pub mod Outcomes
pub mod Truncation
pub mod Entry
pub mod HomeStoreBackend
pub mod Api
mod Tests

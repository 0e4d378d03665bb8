-- ===== src/Volume.antt =====
-- The volume (volume/volume.cpp and volume.hpp).
pub mod ReadPlan
pub mod Read
pub mod Contents
pub mod Segments
pub mod Checksum
pub mod Reads
pub mod Write
pub mod Replay
pub mod Release
pub mod Listener
pub mod Superblock
pub mod Lifecycle
pub mod Restart
pub mod Devices
pub mod Creation
pub mod Destruction
pub mod Lives
pub mod StaleGrowth
mod Tests
mod LifeTests

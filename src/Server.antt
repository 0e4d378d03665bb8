-- ===== src/Server.antt =====
-- The start and the stop of a server (homeblks_impl.cpp, homeblks_impl.hpp): its superblock, its devices
-- and the layout of its services.
pub mod Flags
pub mod Superblock
pub mod Boots
pub mod Lives
pub mod Devices
pub mod Format
mod Tests

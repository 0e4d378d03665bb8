-- ===== src/Manager.antt =====
-- `HomeBlocksImpl` (homeblks_impl.hpp and .cpp, volume_mgr.cpp): the volumes of a server, how they are
-- created, taken offline and removed, which requests they accept, and the shutdown.
pub mod State
pub mod Ops
pub mod Requests
pub mod InFlight
pub mod Invariant
pub mod Removal
pub mod Shutdown
pub mod Lifecycle
mod Tests
mod RecoveryTests
pub mod Collection
pub mod Recovery
pub mod Recovered
pub mod Restart
pub mod Creations
pub mod Pending
pub mod Sound
pub mod Concurrent
pub mod SameId
mod CreationTests
pub mod TwoRemovals
pub mod Underway

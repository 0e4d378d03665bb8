-- ===== src/Chunks.antt =====
-- `VolumeChunkSelector` (volume/volume_chunk_selector.hpp and .cpp): the chunks of the devices, those
-- that are free, and those that belong to a volume.
pub mod State
pub mod Ops
pub mod Recovery
pub mod Count
pub mod Conservation
pub mod Reclaim
pub mod Select
pub mod Resize
pub mod RoundTrip
pub mod Answers
pub mod Returned
pub mod LateResize
mod Tests

-- ===== src/Allocator.antt =====
-- The allocator of src/duma.c with the helpers of duma_hlp.h.
pub mod Slack
pub mod Update
pub mod Reduce
pub mod Request
pub mod Guard
pub mod Chunk
pub mod Region
pub mod Allocate
pub mod Deallocate
pub mod Grow
pub mod Api
pub mod Global
pub mod Live
pub mod Fence
pub mod Finish
mod Tests

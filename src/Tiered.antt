-- ===== src/Tiered.antt =====
-- src/tiered.rs: the pool that moves pages between VRAM, DRAM and the spill file.
pub mod State
pub mod Vram
pub mod Allocate
pub mod Prefetch
pub mod Promote
pub mod Demote
pub mod Write
pub mod Sweep
pub mod Calls
pub mod Build
pub mod Queries
pub mod Teardown
pub mod Steps
pub mod Ready
pub mod Lent
pub mod Returning
pub mod Backed
pub mod Placing
pub mod Staging
pub mod Backing
pub mod Keeps
pub mod Unmoved
pub mod Loaded
pub mod Lowered
pub mod Safe
pub mod SafeStage
pub mod SafeAccess
pub mod SafePages
pub mod Provided
pub mod SafeTable
pub mod SafeRelease
pub mod SafeSweep
pub mod Sessions
pub mod Confined
pub mod Resident
pub mod Promoted
pub mod Staged
pub mod Accessed
pub mod Answered
pub mod Split
pub mod Pieces
pub mod Cache
pub mod Stage
mod Tests
pub mod Frame
pub mod Demotion
pub mod Moved
pub mod Became
pub mod Eviction

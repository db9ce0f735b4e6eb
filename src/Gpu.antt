-- ===== src/Gpu.antt =====
-- src/gpu.rs: the NUMA topology, peer access, and the cluster of GPUs.
pub mod Text
pub mod Numa
pub mod Peer
pub mod Ordinals
pub mod Cluster
pub mod Nearest
pub mod Parsed
pub mod Enable
pub mod Enabled
mod Tests

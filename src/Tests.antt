-- ===== src/Tests.antt =====
-- Runs of the model on concrete inputs.
pub mod Heap
pub mod Disk
pub mod DiskLaws
pub mod Paths
pub mod Suites
pub mod RingBuffers
pub mod Queues
pub mod Sets
pub mod Tracking
pub mod Threads
pub mod Pools
pub mod Tables
pub mod Arrays
pub mod Bits
pub mod Maps
pub mod Bumps

-- ===== src/TensorSource.antt =====
-- src/tensor_source.c: the cache of tensors in front of the model file, its eviction, its leases.
pub mod Cache
pub mod Lease
pub mod Prefetch
pub mod Budget
pub mod Kept
pub mod Transparent
pub mod Tickets
pub mod Stream
pub mod OpenFile
pub mod Worker

-- ===== src/Remoteproc.antt =====
-- Remote processors: openamp/open-amp/lib/remoteproc/remoteproc.c and include/openamp/remoteproc.h.
pub mod State
pub mod Lifecycle
pub mod Ids
pub mod Memory
pub mod Resources
pub mod Virtio
pub mod Loader
pub mod Load
pub mod Noblock
pub mod Queues
pub mod Devices
mod Tests

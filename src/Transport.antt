-- ===== src/Transport.antt =====
-- RPMsg over a pair of virtqueues: openamp/open-amp/lib/rpmsg/rpmsg_virtio.c and
-- include/openamp/rpmsg_virtio.h.
pub mod Header
pub mod Pool
pub mod State
pub mod Buffers
pub mod Send
pub mod Receive
pub mod NameService
pub mod Init
mod Tests

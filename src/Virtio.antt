-- ===== src/Virtio.antt =====
-- Virtio devices: virtio/virtio.c and include/openamp/virtio.h.
mod Names
pub mod Device
pub mod Queues
mod Tests

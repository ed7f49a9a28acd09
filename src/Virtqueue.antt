-- ===== src/Virtqueue.antt =====
-- Virtqueues: openamp/open-amp/lib/virtio/virtqueue.c and its header, one function per C function.
-- `Driver`, `Device` and `Interrupts` are the code, their children the proofs about it. `Pending`
-- and `Cycle` are about both sides together.
pub mod State
pub mod Pending
pub mod Driver
pub mod Device
pub mod Interrupts
pub mod Cycle
pub mod Tests

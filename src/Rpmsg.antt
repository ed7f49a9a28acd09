-- ===== src/Rpmsg.antt =====
-- RPMsg, the messages over a pair of virtqueues: openamp/open-amp/lib/rpmsg/rpmsg.c.
pub mod Address
pub mod Endpoint
pub mod Send
pub mod Buffers
pub mod Tests

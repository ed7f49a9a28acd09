-- ===== src/Lib.antt =====
-- OpenAMP: the core of the framework in openamp/open-amp/lib, on one shared-memory link between a
-- driver and a device.
--
-- A message goes through two parts. The vring (include/openamp/virtio_ring.h) is a layout of shared
-- memory: a descriptor table, an available ring that the driver writes and a used ring that the
-- device writes. The virtqueue (virtio/virtqueue.c, include/openamp/virtqueue.h) is what each side
-- keeps of it: free descriptors, cookies of the chains in flight, and its place in the two rings.
--
-- * `Prelude` passes on the library's names and has the helpers that the parts share: Boolean tests
--   on ℕ, options as partial code, arrays as functions with a bound that is tested at each access,
--   16-bit and 32-bit words with their wrap-around written out.
-- * `Vring` is virtio_ring.h: the structures, `vring_size`, `vring_init`, `vring_need_event`.
--   `Vring/Layout` and `Vring/Event` have the proofs.
-- * `Virtqueue/State` is `struct virtqueue` and the checks that VQUEUE_DEBUG turns on.
--   `Virtqueue/Driver` is the driver's side of virtqueue.c (`virtqueue_create`,
--   `virtqueue_add_buffer`, `virtqueue_get_buffer` and what they call), `Virtqueue/Device` the
--   device's side (`virtqueue_get_available_buffer`, `virtqueue_add_consumed_buffer`,
--   `virtqueue_get_desc_size`), `Virtqueue/Interrupts` the callbacks and notifications
--   (`virtqueue_disable_cb`, `virtqueue_enable_cb`, `virtqueue_kick`). `Virtqueue/Pending` is the
--   abstract view of a ring as a list, and `Virtqueue/Cycle` puts the two sides together.
-- * `Virtio/Names` is the table of device names of virtio/virtio.c, `Virtio/Device` the structures and
--   inline functions of include/openamp/virtio.h, and `Virtio/Queues` `virtio_create_virtqueues`. The
--   dispatch table is a parameter, with functions on a state `W` that belongs to the platform.
--
-- Above them is RPMsg: endpoints with 32-bit addresses that send to one another.
-- * `Bitmap` is the bitmap of openamp/libmetal/lib/include/metal/utilities.h, with the search for a
--   clear bit in `Bitmap/Search`; `Utilities` is `safe_strcpy` of utils/utilities.c.
-- * `Rpmsg/Address` has the functions on addresses of rpmsg/rpmsg.c, `Rpmsg/Endpoint` the device,
--   its list of endpoints and `rpmsg_create_ept`, `rpmsg_destroy_ept`, `rpmsg_get_endpoint` and what
--   they call. The device has the memory of its endpoints as a function from the pointer. The
--   operations of the transport and the release callbacks of endpoints are parameters, any
--   functions on a state `W` of their own. `Rpmsg/Endpoint/Table` is the invariant of the list, the
--   endpoints and the bitmap; `Unregister`, `Announce`, `Create` and `Destroy` beside it are proofs.
-- * `Rpmsg/Send` has `rpmsg_send` and the other ways to send of include/openamp/rpmsg.h,
--   `Rpmsg/Buffers` the calls of rpmsg/rpmsg.c for the buffers of the transport.
--
-- `Transport` ties the two together: it is rpmsg/rpmsg_virtio.c with include/openamp/rpmsg_virtio.h,
-- where an RPMsg device sends through one virtqueue and receives through another.
-- * `Transport/Header` is the header of a message, whose field `reserved` keeps the count of holders
--   and the index of the buffer; `Transport/Pool` the driver's pool of shared memory;
--   `Transport/State` `struct rpmsg_virtio_device` with the memory of the buffers, and what the code
--   calls: callbacks of the application, the sleep, and the notification of the other side.
-- * `Transport/Buffers` takes buffers from the queues and gives them back, `Transport/Send` sends,
--   `Transport/Receive` is the callback of the receive queue, `Transport/NameService` the callback
--   for announcements of the other side, `Transport/Init` sets a device up and takes it down.
-- * `RPMSG_ASSERT` is read as a failed assertion, `empty_notify` is VQ_RX_EMPTY_NOTIFY. The lock is a
--   flag: to take it twice would block, and answers `none`.
--
-- A remote processor is what all this runs on: remoteproc/remoteproc.c.
-- * `Remoteproc/State` is `struct remoteproc`, with the operations of the platform as parameters on a
--   state `X` of their own; `Remoteproc/Lifecycle` the calls that configure, start, stop and shut it
--   down; `Remoteproc/Memory` its memories, `Remoteproc/Ids` its notification ids,
--   `Remoteproc/Resources` the parser of its resource table, remoteproc/rsc_table_parser.c, and
--   `Remoteproc/Virtio` the registers of a virtio device in that table. `Remoteproc/Queues` is the rest
--   of remoteproc/remoteproc_virtio.c: the queues of such a device, its creation and notifications,
--   and `Remoteproc/Devices` ties it to its remote processor (`remoteproc_create_virtio`).
-- * `Remoteproc/Loader` is the interface between remoteproc.c, a loader and the store of an image, of
--   include/openamp/remoteproc_loader.h; `Remoteproc/Load` is `remoteproc_load`, and
--   `Remoteproc/Noblock` `remoteproc_load_noblock`, on any loader.
-- * `Elf` is the loader for ELF images, remoteproc/elf_loader.c: `Elf/Format` the structures of both
--   classes, read from the bytes of the image, `Elf/Header` `elf_load_header`, and `Elf/Load`
--   `elf_load` and the smaller operations. `Elf/Header/Pieces` says what a file is to the loader, and
--   `Elf/Firmware` runs `remoteproc_load` with it. An access behind a table or a piece of the image
--   answers `none`. A `size_t` has 64 bits, an `int` has 32.
--
-- How the code is read:
-- * A function that runs into undefined behaviour or a failed assertion answers `none`. Every
--   access of a ring, of the descriptor table and of the array of chain states tests its bound.
-- * `debug` says whether VQUEUE_DEBUG is defined. The build files leave it undefined; theorems
--   that do not fix it hold for both.
-- * `Role` is what VIRTIO_ROLE_IS_DRIVER and VIRTIO_ROLE_IS_DEVICE make of the field `role`
--   (`role_of`). include/openamp/virtio.h defines VIRTIO_DRIVER_ONLY, and so sets
--   VIRTIO_DEVICE_SUPPORT to 0: in this build a device is `unsupported`, and the branches for it are
--   never taken. Every function is modelled for the three, and a theorem about a device says so.
-- * A structure that both sides see, the vring, is a field of the virtqueue. The cache and barrier
--   macros have no counterpart: the model is sequentially consistent, one operation after another.
-- * The translations of addresses by the metal I/O region and the notification of the other side
--   are parameters (`Io`, and the answer of `kick`), as they belong to the platform.
-- * `while (desc->flags & VRING_DESC_F_NEXT)` of `vq_ring_free_chain` runs on fuel `vq_nentries`.
--   A chain in flight of a valid queue has at most that many descriptors, so the fuel is enough.
-- * The loop of `rpmsg_virtio_rx_callback` runs on fuel, and one round more than messages wait is
--   enough; so does the loop of `rpmsg_deinit_vdev`, with one round more than endpoints, and the wait
--   for a buffer to send in, with one round more than the 15000 ticks if no callback for waiting is
--   set. With such a callback, and in `rpmsg_virtio_wait_remote_ready`, the other side decides how
--   long it takes, and no fuel is enough in general.
-- * The two loops of `remoteproc_load` run on fuel. For the loop over the headers of an ELF image five
--   rounds are enough; the loop over the segments takes a round for each of them and one more.
--
-- Not modelled: the MMIO transport and the RPC services, `virtqueue_dump`, which prints,
-- `virtio_alloc_buf` and `virtio_free_buf`, the wrappers of include/openamp/rpmsg_virtio.h,
-- operation_interface and openamp_demo of the repository's root, and the ports and applications,
-- which are I/O. libhugetlbfs and sysfsutils are copies of other projects.
pub mod Prelude
pub mod Bitmap
pub mod Utilities
pub mod Vring
pub mod Virtqueue
pub mod Virtio
pub mod Rpmsg
pub mod Transport
pub mod Remoteproc
pub mod Elf

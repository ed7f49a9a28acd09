-- ===== src/Transport/State.antt =====
-- `struct rpmsg_virtio_device` with the shared memory that it works on, and what the code calls.
use openamp_core.Prelude.{ℕ, ◌+◌, ◌-◌, Bool, Option, some, List, ℤ, if◌then◌else◌, ◌>>=◌, update}
use openamp_core.Utilities.{Chars}
use openamp_core.Virtqueue.State.{Ptr, Virtqueue}
use openamp_core.Virtqueue.Interrupts.{kick}
use openamp_core.Virtio.Device.{VirtioDevice}
use openamp_core.Rpmsg.Endpoint.{Device}
use openamp_core.Transport.Header.{Hdr}
use openamp_core.Transport.Pool.{ShmPool}

-- `struct rpmsg_virtio_config`
pub record Config : Type 0 where
  pub h2r_buf_size : ℕ
  pub r2h_buf_size : ℕ
  pub split_shpool : Bool

-- `struct vbuff_reclaimer_t`, at the address of the buffer in which it is kept.
pub record Reclaimed : Type 0 where
  pub buffer : Ptr
  pub idx : ℕ

-- `struct rpmsg_virtio_device`. `rvq` and `svq` are the queues themselves. The memory of the buffers
-- is `hdr`, the header at an address, and `payload`, the bytes at the address behind a header.
-- `clobbered` is what a header reads as when its memory holds a `struct vbuff_reclaimer_t`.
pub record Rvdev (W V : Type 0) : Type 0 where
  pub rdev : Device W
  pub config : Config
  pub vdev : VirtioDevice V
  pub rvq : Virtqueue
  pub svq : Virtqueue
  pub shpool : Option ShmPool
  pub reclaimer : List Reclaimed
  pub hdr : Ptr → Hdr
  pub payload : Ptr → Chars
  pub clobbered : Hdr

-- What the code calls: the callback of an endpoint, by its pointer, on the endpoint, the data, their
-- length, the source and the private pointer; the sleep of libmetal, during which the other side may
-- work; the callbacks for services that come and go, of an endpoint by its pointer and of the
-- device; the callback for waiting, if one is set; the notification of the other side by the vdev;
-- and whether a block of the I/O region is written whole.
pub record Env (W V : Type 0) : Type 0 where
  pub ept_cb : Ptr → Rvdev W V → Ptr → Ptr → (len src : ℕ) → Ptr → Option (ℤ × Rvdev W V)
  pub sleep : Rvdev W V → Rvdev W V
  pub notify_wait_cb : Option (Rvdev W V → (notifyid : ℕ) → ℤ × Rvdev W V)
  pub notify : V → (queue_index : ℕ) → V
  pub ept_ns_unbind_cb : Ptr → Rvdev W V → Ptr → Option (Rvdev W V)
  pub ns_bind_cb : Option (Rvdev W V → (name : Chars) → (dest : ℕ) → Option (Rvdev W V))
  pub ns_unbind_cb : Option (Rvdev W V → (name : Chars) → (dest : ℕ) → Option (Rvdev W V))
  pub block_write : Ptr → (len : ℕ) → Bool
  pub differ : Chars → Chars → Bool

abbrev pub sizeof_hdr : ℕ
sizeof_hdr = 16

-- RPMSG_LOCATE_HDR and RPMSG_LOCATE_DATA
abbrev pub locate_hdr : Ptr → Ptr
locate_hdr p = p - sizeof_hdr

abbrev pub locate_data : Ptr → Ptr
locate_data p = p + sizeof_hdr

module _ {W V : Type 0} where
  abbrev pub set_hdr : Rvdev W V → Ptr → Hdr → Rvdev W V
  set_hdr r p h = record r { hdr = update r.hdr p h }

  abbrev pub set_reserved : Rvdev W V → Ptr → ℕ → Rvdev W V
  set_reserved r p reserved = set_hdr r p (record (r.hdr p) { reserved = reserved })

  -- `virtqueue_kick` of one queue: the vdev after the notification, if there is one, and the queue.
  unfoldable pub kick_queue :
      Env W V → (debug : Bool) → VirtioDevice V → Virtqueue → Option (VirtioDevice V × Virtqueue)
  kick_queue env debug vdev vq = do
    (notified, kicked) ← kick debug vq
    some (
      if notified then record vdev { world = env.notify vdev.world vq.queue_index } else vdev,
      kicked,
    )

  abbrev pub kick_rvq : Env W V → (debug : Bool) → Rvdev W V → Option (Rvdev W V)
  kick_rvq env debug r =
      kick_queue env debug r.vdev r.rvq >>= λ done. some (record r { vdev = done.0; rvq = done.1 })

  abbrev pub kick_svq : Env W V → (debug : Bool) → Rvdev W V → Option (Rvdev W V)
  kick_svq env debug r =
      kick_queue env debug r.vdev r.svq >>= λ done. some (record r { vdev = done.0; svq = done.1 })

-- ===== src/Transport/Buffers.antt =====
-- The buffers of the two queues in rpmsg_virtio.c: taking and giving back, holding and releasing.
pub mod DeviceSide
pub mod Recycle
use openamp_core.Prelude.{
  ℕ, ◌+◌, ◌-◌, ◌%◌, ◌/◌, Bool, true, false, not, ◌&&◌, Option, none, some, List, [], ◌∷◌, ◌++◌,
  ◌==◌, if◌then◌else◌, ◌>>=◌, ◌>>◌, require, update,
}
use openamp_core.Utilities.{Chars}
use openamp_core.Virtqueue.State.{
  Role, driver, device, unsupported, Status, success, error_vring_full, error_vring_align,
  error_no_mem, Ptr, Virtqueue,
}
use openamp_core.Virtqueue.Driver.{Got, add_buffer}
use openamp_core.Virtqueue.Driver as Driver
use openamp_core.Virtqueue.Device.{
  Available, get_available_buffer, add_consumed_buffer, get_buffer_length,
}
use openamp_core.Virtio.Queues.{is_ok}
use openamp_core.Rpmsg.Endpoint.{Device, mutex_acquire, mutex_release}
use openamp_core.Transport.Header.{Hdr, held_inc, held_dec_test, buf_index}
use openamp_core.Transport.Pool as Pool
use openamp_core.Transport.State.{
  Reclaimed, Rvdev, Env, locate_hdr, locate_data, set_hdr, set_reserved, kick_rvq,
}

-- A buffer with its length and index, as the functions that take one hand it out.
pub record Taken : Type 0 where
  pub buffer : Ptr
  pub len : ℕ
  pub idx : ℕ

-- A pointer that a queue hands out may be NULL as well.
abbrev pub from_got : Option Got → Option Taken
from_got none = none
from_got (some g) =
    if g.cookie == 0 then none else some (record { buffer = g.cookie; len = g.len; idx = g.idx })

-- A payload with the index of the buffer over its first two bytes.
abbrev pub recycled : (idx : ℕ) → Chars → Chars
recycled idx payload i = if i == 0 then idx % 256 else if i == 1 then idx / 256 else payload i

abbrev pub from_available : Option Available → Option Taken
from_available none = none
from_available (some a) =
    if a.buffer == 0
    then none
    else some (record { buffer = a.buffer; len = a.len; idx = a.avail_idx })

module _ {W V : Type 0} (env : Env W V) (debug : Bool) where
  -- `rpmsg_virtio_return_buffer`, by the role of the device.
  pub return_buffer_as : Role → Rvdev W V → (buffer : Ptr) → (len idx : ℕ) → Option (Rvdev W V)
  return_buffer_as driver r buffer len idx = do
    (ret, rvq) ← add_buffer debug r.rvq (record { buf = buffer; len = len } ∷ []) 0 1 buffer
    require (is_ok ret)
    some (record r { rvq = rvq })
  return_buffer_as device r buffer len idx = do
    (ret, rvq) ← add_consumed_buffer debug r.rvq idx len
    require (is_ok ret)
    some (record r { rvq = rvq })
  return_buffer_as unsupported r buffer len idx = some r

  -- `rpmsg_virtio_return_buffer`
  pub return_buffer : Rvdev W V → (buffer : Ptr) → (len idx : ℕ) → Option (Rvdev W V)
  unfolding return_buffer_as
  return_buffer r buffer len idx = return_buffer_as r.vdev.role r buffer len idx

  -- `rpmsg_virtio_enqueue_buffer`, by the role of the device.
  pub enqueue_buffer_as :
      Role → Rvdev W V → (buffer : Ptr) → (len idx : ℕ) → Option (Status × Rvdev W V)
  enqueue_buffer_as driver r buffer len idx = do
    (ret, svq) ← add_buffer debug r.svq (record { buf = buffer; len = len } ∷ []) 1 0 buffer
    some (ret, record r { svq = svq })
  enqueue_buffer_as device r buffer len idx = do
    (ret, svq) ← add_consumed_buffer debug r.svq idx len
    some (ret, record r { svq = svq })
  enqueue_buffer_as unsupported r buffer len idx = some (success, r)

  -- `rpmsg_virtio_enqueue_buffer`
  pub enqueue_buffer : Rvdev W V → (buffer : Ptr) → (len idx : ℕ) → Option (Status × Rvdev W V)
  unfolding enqueue_buffer_as
  enqueue_buffer r buffer len idx = enqueue_buffer_as r.vdev.role r buffer len idx

  -- The length that `rpmsg_virtio_get_tx_buffer` gives for a buffer of the send queue; it sets none
  -- for a role that is not supported.
  unfoldable pub tx_buffer_len : Role → Rvdev W V → (idx : ℕ) → Option ℕ
  tx_buffer_len driver r idx = some r.config.h2r_buf_size
  tx_buffer_len device r idx = get_buffer_length r.svq idx
  tx_buffer_len unsupported r idx = none

  -- The end of `rpmsg_virtio_get_tx_buffer` for the driver: a new buffer of the pool.
  unfoldable pub pool_tx_buffer : Rvdev W V → Option Taken × Rvdev W V
  pool_tx_buffer r =
      let (buffer, pool) = Pool.get_buffer r.shpool r.config.h2r_buf_size in
      (
        if buffer == 0
            then none
            else some (record { buffer = buffer; len = r.config.h2r_buf_size; idx = 0 }),
        record r { shpool = pool },
      )

  -- `rpmsg_virtio_get_tx_buffer` with nothing to recycle.
  unfoldable pub queue_tx_buffer : Role → Rvdev W V → Option (Option Taken × Rvdev W V)
  unfolding pool_tx_buffer
  queue_tx_buffer driver r = do
    (got, svq) ← Driver.get_buffer debug r.svq
    let next = record r { svq = svq }
    elim (from_got got) [
      | some taken ↦ some (some taken, next)
      | none ↦ if svq.free_cnt == 0 then some (none, next) else some (pool_tx_buffer next)
    ]
  queue_tx_buffer device r = do
    (got, svq) ← get_available_buffer debug r.svq
    some (from_available got, record r { svq = svq })
  queue_tx_buffer unsupported r = some (none, r)

  -- `rpmsg_virtio_get_tx_buffer`; the answer `none` is NULL.
  pub get_tx_buffer_from : List Reclaimed → Rvdev W V → Option (Option Taken × Rvdev W V)
  unfolding tx_buffer_len queue_tx_buffer
  get_tx_buffer_from [] r = queue_tx_buffer r.vdev.role r
  get_tx_buffer_from (node ∷ nodes) r = do
    len ← tx_buffer_len r.vdev.role r node.idx
    some (
      some (record { buffer = node.buffer; len = len; idx = node.idx }),
      record r { reclaimer = nodes },
    )

  unfoldable pub get_tx_buffer : Rvdev W V → Option (Option Taken × Rvdev W V)
  unfolding get_tx_buffer_from
  get_tx_buffer r = get_tx_buffer_from r.reclaimer r

  -- `rpmsg_virtio_get_rx_buffer`, by the role of the device.
  pub get_rx_buffer_as : Role → Rvdev W V → Option (Option Taken × Rvdev W V)
  get_rx_buffer_as driver r = do
    (got, rvq) ← Driver.get_buffer debug r.rvq
    some (from_got got, record r { rvq = rvq })
  get_rx_buffer_as device r = do
    (got, rvq) ← get_available_buffer debug r.rvq
    some (from_available got, record r { rvq = rvq })
  get_rx_buffer_as unsupported r = some (none, r)

  -- `rpmsg_virtio_get_rx_buffer`
  pub get_rx_buffer : Rvdev W V → Option (Option Taken × Rvdev W V)
  unfolding get_rx_buffer_as
  get_rx_buffer r = get_rx_buffer_as r.vdev.role r

  -- The lock of the device, around a part of a function.
  abbrev pub acquire : Rvdev W V → Option (Rvdev W V)
  acquire r = mutex_acquire r.rdev >>= λ held. some (record r { rdev = held })

  abbrev pub release : Rvdev W V → Rvdev W V
  release r = record r { rdev = mutex_release r.rdev }

  -- `rpmsg_virtio_hold_rx_buffer`
  pub hold_rx_buffer : Rvdev W V → (rxbuf : Ptr) → Option (Rvdev W V)
  hold_rx_buffer r rxbuf = do
    held ← acquire r
    let p = locate_hdr rxbuf
    some (release (set_reserved held p (held_inc (held.hdr p).reserved)))

  -- `rpmsg_virtio_release_rx_buffer_nolock`
  pub release_rx_buffer_nolock : Rvdev W V → (rp_hdr : Ptr) → Option (Rvdev W V)
  unfolding return_buffer
  release_rx_buffer_nolock r rp_hdr = do
    let idx = buf_index (r.hdr rp_hdr).reserved
    len ← get_buffer_length r.rvq idx
    return_buffer r rp_hdr len idx

  -- `rpmsg_virtio_release_rx_buffer`
  pub release_rx_buffer : Rvdev W V → (rxbuf : Ptr) → Option (Rvdev W V)
  unfolding release_rx_buffer_nolock
  release_rx_buffer r rxbuf = do
    held ← acquire r
    let p = locate_hdr rxbuf
    let (last, reserved) = held_dec_test (held.hdr p).reserved
    let counted = set_reserved held p reserved
    done ←
        (if last
          then (release_rx_buffer_nolock counted p >>= λ returned. kick_rvq env debug returned)
          else some counted)
    some (release done)

  -- `rpmsg_virtio_release_tx_buffer`. The buffer's memory then holds a `struct vbuff_reclaimer_t`: its
  -- node over the header, and its `idx` over the first two bytes of the payload, for pointers of 64
  -- bits and the lower byte first.
  pub release_tx_buffer : Rvdev W V → (txbuf : Ptr) → Option (Rvdev W V)
  release_tx_buffer r txbuf = do
    held ← acquire r
    let p = locate_hdr txbuf
    let (last, reserved) = held_dec_test (held.hdr p).reserved
    let counted = set_reserved held p reserved
    some (
        release (
          if last
          then record (set_hdr counted p counted.clobbered) {
            payload =
                update counted.payload (locate_data p)
                  (recycled (buf_index reserved) (counted.payload (locate_data p)));
            reclaimer = counted.reclaimer ++ (record { buffer = p; idx = buf_index reserved } ∷ []);
          }
          else counted))

-- ===== src/Virtio/Queues.antt =====
-- `virtio_create_virtqueues` of virtio/virtio.c.
pub mod Made
use openamp_core.Prelude.{
  ℕ, zero, suc, ◌+◌, ◌-◌, ◌^◌, Bool, true, false, not, ◌&&◌, ◌||◌, Option, none, some, ltb,
  if◌then◌else◌, ◌>>=◌, ◌>>◌, require, update, has_flag,
}
use openamp_core.Vring.{Vring}
use openamp_core.Virtqueue.State.{
  Status, success, error_vqueue_invld_param, role_is_driver, Ptr, Virtqueue,
}
use openamp_core.Virtqueue.Driver.{AllocInfo, create}
use openamp_core.Virtio.Device.{Dispatch, VringInfo, VirtioDevice}

-- A ring in memory that `metal_io_block_set` has cleared.
abbrev pub zero_vring : Vring
zero_vring = record {
  desc = λ i. record { addr = 0; len = 0; flags = 0; next = 0 };
  avail_flags = 0;
  avail_idx = 0;
  avail_ring = λ i. 0;
  used_event = 0;
  used_flags = 0;
  used_idx = 0;
  used_ring = λ i. record { id = 0; len = 0 };
  avail_event = 0;
}

abbrev pub is_ok : Status → Bool
is_ok success = true
is_ok _ = false

module _ {W : Type 0} (debug : Bool) (callbacks : ℕ → Ptr) where
  -- One round of the loop of `virtio_create_virtqueues`. Its read of `vdev->func` is undefined if
  -- that is NULL, as is for a driver the address in a region that is NULL.
  pub create_queue : VirtioDevice W → (i : ℕ) → Option (Status × VirtioDevice W)
  create_queue vdev i = do
    let entry = vdev.vrings_info i
    let is_driver = role_is_driver vdev.role
    require (not is_driver || entry.has_io)
    let info =
        if is_driver && entry.in_io then record entry.info { memory = zero_vring } else entry.info
    func ← vdev.func
    (status, vq) ←
        create debug vdev.role (has_flag (2 ^ 29) vdev.features) i (some info) (callbacks i)
          func.notify entry.vq
    some (
      status,
      record vdev {
        vrings_info = update vdev.vrings_info i (record entry { vq = vq; info = info });
      },
    )

  -- The loop at `i`, with `rounds` queues to go.
  pub create_queues : (rounds i : ℕ) → VirtioDevice W → Option (Status × VirtioDevice W)
  create_queues zero i vdev = some (success, vdev)
  create_queues (suc rounds) i vdev = do
    (status, next) ← create_queue vdev i
    elim (is_ok status) [ true ↦ create_queues rounds (i + 1) next | false ↦ some (status, next) ]

  -- `virtio_create_virtqueues` of a device that is not NULL and whose table has no operation of its
  -- own for it.
  pub create_virtqueues : VirtioDevice W → (nvqs : ℕ) → Option (Status × VirtioDevice W)
  create_virtqueues vdev nvqs =
      if ltb vdev.vrings_num nvqs
      then some (error_vqueue_invld_param, vdev)
      else create_queues nvqs 0 vdev

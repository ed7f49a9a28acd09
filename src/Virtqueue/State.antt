-- ===== src/Virtqueue/State.antt =====
-- `struct virtqueue`, its status codes, and the macros of the debug build (virtqueue.h).
use openamp_core.Prelude.{
  ℕ, Bool, true, false, not, ◌&&◌, ◌||◌, Option, none, some, ◌==◌, if◌then◌else◌, require,
}
use openamp_core.Vring.{Vring}

-- What VIRTIO_ROLE_IS_DRIVER and VIRTIO_ROLE_IS_DEVICE make of `vdev->role`: `unsupported` if both
-- are false, as for a device in a build without VIRTIO_DEVICE_SUPPORT.
pub data Role : Type 0 where
  driver device unsupported : Role

-- The role of a virtio device whose field is `role`. VIRTIO_DRIVER_SUPPORT is 1. virtio.h defines
-- VIRTIO_DRIVER_ONLY, and so sets VIRTIO_DEVICE_SUPPORT to 0.
abbrev pub role_of : (device_support : Bool) → (role : ℕ) → Role
role_of device_support role =
    if role == 0 then driver else if device_support && role == 1 then device else unsupported

abbrev pub role_is_driver : Role → Bool
role_is_driver driver = true
role_is_driver device = false
role_is_driver unsupported = false

abbrev pub role_is_device : Role → Bool
role_is_device driver = false
role_is_device device = true
role_is_device unsupported = false

-- VQUEUE_SUCCESS and the error codes.
pub data Status : Type 0 where
  success error_vring_full error_vring_align error_no_mem error_vring_no_buff : Status
  error_vqueue_invld_param : Status

-- A pointer; 0 is NULL.
abbrev pub Ptr : Type 0
Ptr = ℕ

-- `struct virtqueue_buf`
pub record Buf : Type 0 where
  pub buf : Ptr
  pub len : ℕ

-- `struct vq_desc_extra`
pub record DescExtra : Type 0 where
  pub cookie : Ptr
  pub ndescs : ℕ

-- The address translation of libmetal's I/O region, which the code calls.
pub record Io : Type 0 where
  pub virt_to_phys : ℕ → ℕ
  pub phys_to_virt : ℕ → ℕ

-- `struct virtqueue`. `event_idx` is the feature bit VIRTIO_RING_F_EVENT_IDX of its device, `role`
-- the device's role. A function pointer is a number, 0 for NULL. `inuse` exists in a debug build.
-- The arrays behind `ring` and `descx` have `nentries` entries.
pub record Virtqueue : Type 0 where
  pub role : Role
  pub event_idx : Bool
  pub queue_index : ℕ
  pub nentries : ℕ
  pub callback : Ptr
  pub notify : Ptr
  pub ring : Vring
  pub free_cnt : ℕ
  pub queued_cnt : ℕ
  pub shm_io : Io
  pub desc_head_idx : ℕ
  pub used_cons_idx : ℕ
  pub available_idx : ℕ
  pub inuse : Bool
  pub descx : ℕ → DescExtra

-- VQASSERT: a debug build stops where `exp` is false.
abbrev pub vqassert : (debug exp : Bool) → Option (Unit {0})
vqassert debug exp = require (not debug || exp)

abbrev is_success : Status → Bool
is_success success = true
is_success error_vring_full = false
is_success error_vring_align = false
is_success error_no_mem = false
is_success error_vring_no_buff = false
is_success error_vqueue_invld_param = false

-- VQ_PARAM_CHK: a debug build keeps the first error, and any other build checks nothing.
abbrev pub vq_param_chk : (debug condition : Bool) → (status_var status_err : Status) → Status
vq_param_chk debug condition status_var status_err =
    if debug && is_success status_var && condition then status_err else status_var

-- VQUEUE_BUSY and VQUEUE_IDLE
unfoldable pub vqueue_busy : Bool → Virtqueue → Option Virtqueue
vqueue_busy false vq = some vq
vqueue_busy true vq = if vq.inuse then none else some (record vq { inuse = true })

unfoldable pub vqueue_idle : Bool → Virtqueue → Virtqueue
vqueue_idle false vq = vq
vqueue_idle true vq = record vq { inuse = false }

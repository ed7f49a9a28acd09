-- ===== src/Virtio/Device.antt =====
-- A virtio device and the calls that go to its dispatch table: the inline functions of
-- include/openamp/virtio.h. `W` is the state of what the table's operations work on.
pub mod Feature
use openamp_core.Prelude.{
  ℕ, ◌+◌, ◌-◌, ◌%◌, ◌^◌, Bool, true, false, not, ◌&&◌, Option, none, some, ℤ, pos, negsuc, leb,
  ◌==◌, if◌then◌else◌, ◌>>=◌, has_flag,
}
use openamp_core.Virtqueue.State.{Role, role_is_device, Ptr, Virtqueue}
use openamp_core.Virtqueue.Driver.{AllocInfo}

abbrev pub einval : ℤ
einval = negsuc 21

abbrev pub enxio : ℤ
enxio = negsuc 5

-- VIRTIO_CONFIG_STATUS_DRIVER_OK and VIRTIO_CONFIG_STATUS_NEEDS_RESET
abbrev pub status_driver_ok : ℕ
status_driver_ok = 4

abbrev pub status_needs_reset : ℕ
status_needs_reset = 64

-- `struct virtio_dispatch`; an operation that is NULL is `none`. Configuration space is read and
-- written as a list of bytes.
pub record Dispatch (W : Type 0) : Type 0 where
  pub delete_virtqueues : Option (W → W)
  pub get_status : Option (W → ℕ × W)
  pub set_status : Option (W → ℕ → W)
  pub get_features : Option (W → ℕ × W)
  pub set_features : Option (W → ℕ → W)
  pub negotiate_features : Option (W → ℕ → ℕ × W)
  pub read_config : Option (W → (offset : ℕ) → (length : ℤ) → (ℕ → ℕ) × W)
  pub write_config : Option (W → (offset : ℕ) → (src : ℕ → ℕ) → (length : ℤ) → W)
  pub reset_device : Option (W → W)
  pub notify : Ptr

-- `struct virtio_vring_info`; `has_io` says whether `io` is set, `in_io` whether the ring is in that
-- region, so that `metal_io_block_set` reaches it.
pub record VringInfo : Type 0 where
  pub vq : Option Virtqueue
  pub info : AllocInfo
  pub notifyid : ℕ
  pub has_io : Bool
  pub in_io : Bool

-- `struct virtio_device`, with `func` as `none` if it is NULL, and the state behind it.
pub record VirtioDevice (W : Type 0) : Type 0 where
  pub role : Role
  pub id_device : ℕ
  pub features : ℕ
  pub func : Option (Dispatch W)
  pub vrings_num : ℕ
  pub vrings_info : ℕ → VringInfo
  pub world : W

module _ {W : Type 0} where
  -- An operation of the table, or `none` if it or the table is NULL.
  abbrev pub op_of : {A : Type 0} → (Dispatch W → Option A) → Option (Dispatch W) → Option A
  op_of field none = none
  op_of field (some func) = field func

  -- `virtio_delete_virtqueues`
  pub delete_virtqueues : VirtioDevice W → VirtioDevice W
  delete_virtqueues vdev = elim (op_of (λ f. f.delete_virtqueues) vdev.func) [
    | none ↦ vdev
    | some op ↦ record vdev { world = op vdev.world }
  ]

  -- `virtio_get_devid`
  pub get_devid : Option (VirtioDevice W) → ℕ
  get_devid none = 0
  get_devid (some vdev) = vdev.id_device

  -- `virtio_get_status` of a device that is not NULL; `*status` is set if the answer is 0.
  unfoldable pub get_status : VirtioDevice W → ℤ × ℕ × VirtioDevice W
  get_status vdev = elim (op_of (λ f. f.get_status) vdev.func) [
    | none ↦ (enxio, 0, vdev)
    | some op ↦
        (let (status, world) = op vdev.world in (pos 0, status, record vdev { world = world }))
  ]

  -- `virtio_set_status` of a device that is not NULL.
  pub set_status : VirtioDevice W → (status : ℕ) → ℤ × VirtioDevice W
  set_status vdev status = elim (op_of (λ f. f.set_status) vdev.func) [
    | none ↦ (enxio, vdev)
    | some op ↦ (pos 0, record vdev { world = op vdev.world status })
  ]

  -- `virtio_read_config` of a device that is not NULL, to a destination that is not.
  pub read_config : VirtioDevice W → (offset : ℕ) → (len : ℤ) → ℤ × Option (ℕ → ℕ) × VirtioDevice W
  read_config vdev offset len = elim (op_of (λ f. f.read_config) vdev.func) [
    | none ↦ (enxio, none, vdev)
    | some op ↦
        (let (dst, world) = op vdev.world offset len in
          (pos 0, some dst, record vdev { world = world }))
  ]

  -- `virtio_write_config` of a device that is not NULL, from a source that is not.
  pub write_config : VirtioDevice W → (offset : ℕ) → (src : ℕ → ℕ) → (len : ℤ) → ℤ × VirtioDevice W
  write_config vdev offset src len = elim (op_of (λ f. f.write_config) vdev.func) [
    | none ↦ (enxio, vdev)
    | some op ↦ (pos 0, record vdev { world = op vdev.world offset src len })
  ]

  -- `virtio_get_features` of a device that is not NULL; `*features` is set if the answer is 0.
  pub get_features : VirtioDevice W → ℤ × ℕ × VirtioDevice W
  get_features vdev = elim (op_of (λ f. f.get_features) vdev.func) [
    | none ↦ (enxio, 0, vdev)
    | some op ↦
        (let (features, world) = op vdev.world in
          (
            pos 0,
            features,
            record vdev {
              world = world;
              features = if role_is_device vdev.role then features else vdev.features;
            },
          ))
  ]

  -- `virtio_set_features` of a device that is not NULL.
  pub set_features : VirtioDevice W → (features : ℕ) → ℤ × VirtioDevice W
  set_features vdev features = elim (op_of (λ f. f.set_features) vdev.func) [
    | none ↦ (enxio, vdev)
    | some op ↦ (pos 0, record vdev { world = op vdev.world features })
  ]

  -- `virtio_negotiate_features` of a device that is not NULL. What it stores in the device it also
  -- stores in `*final_features`.
  pub negotiate_features : VirtioDevice W → (features : ℕ) → ℤ × VirtioDevice W
  negotiate_features vdev features = elim (op_of (λ f. f.negotiate_features) vdev.func) [
    | none ↦ (enxio, vdev)
    | some op ↦
        (let (final, world) = op vdev.world features in
          (pos 0, record vdev { features = final; world = world }))
  ]

  -- `virtio_reset_device` of a device that is not NULL.
  pub reset_device : VirtioDevice W → ℤ × VirtioDevice W
  reset_device vdev = elim (op_of (λ f. f.reset_device) vdev.func) [
    | none ↦ (enxio, vdev)
    | some op ↦ (pos 0, record vdev { world = op vdev.world })
  ]

  -- The end of `virtio_has_feature`. A shift by the width of `unsigned long` is undefined.
  pub test_feature : VirtioDevice W → (feature_bit : ℕ) → Option (Bool × VirtioDevice W)
  unfolding get_features
  test_feature vdev feature_bit =
      let known = if vdev.features == 0 then (get_features vdev).2 else vdev in
      if leb 64 feature_bit then none else some (has_flag (2 ^ feature_bit) known.features, known)

  -- `virtio_has_feature`; a device that is `none` is NULL.
  pub has_feature :
      Option (VirtioDevice W) → (feature_bit : ℕ) → Option (Bool × Option (VirtioDevice W))
  unfolding test_feature
  has_feature none feature_bit = if leb 32 feature_bit then some (false, none) else none
  has_feature (some vdev) feature_bit =
      test_feature vdev feature_bit >>= λ answer. some (answer.0, some answer.1)

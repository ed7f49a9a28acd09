-- ===== src/Remoteproc/Virtio.antt =====
-- The virtio device in the resource table of a remote processor: the operations that
-- remoteproc/remoteproc_virtio.c puts in its dispatch table, but for those on queues.
pub mod Negotiation
use openamp_core.Prelude.{
  ℕ, ◌+◌, ◌-◌, ◌%◌, Option, none, some, bit_and, ltb, leb, ◌&&◌, if◌then◌else◌, ◌>>=◌, ◌>>◌,
  require, u32,
}
use openamp_core.Virtqueue.State.{Role, role_is_driver}
use openamp_core.Virtio.Device.{status_needs_reset}

-- `struct remoteproc_virtio` with the `struct fw_rsc_vdev` that it points to and the configuration
-- behind the vrings of that, a byte at each offset. `notify` tells the other side, on a state `Y`,
-- and leaves the registers alone.
pub record Rpvdev (Y : Type 0) : Type 0 where
  pub role : Role
  pub notifyid : ℕ
  pub dfeatures : ℕ
  pub gfeatures : ℕ
  pub status : ℕ
  pub config_len : ℕ
  pub config : ℕ → ℕ
  pub notify : Y → (notifyid : ℕ) → Y
  pub world : Y

module _ {Y : Type 0} where
  -- `rpvdev->notify` with the id of the device.
  abbrev pub notified : Rpvdev Y → Rpvdev Y
  notified d = record d { world = d.notify d.world d.notifyid }

  -- `rproc_virtio_get_status` and `rproc_virtio_set_status`
  unfoldable pub get_status : Rpvdev Y → ℕ
  get_status d = d.status

  pub set_status : Rpvdev Y → (status : ℕ) → Rpvdev Y
  set_status d status = notified (record d { status = status % 256 })

  -- `rproc_virtio_get_dfeatures`, `rproc_virtio_get_features` and `rproc_virtio_set_features`
  unfoldable pub get_dfeatures : Rpvdev Y → ℕ
  get_dfeatures d = d.dfeatures

  pub get_features : Rpvdev Y → ℕ
  unfolding get_dfeatures
  get_features d = bit_and (get_dfeatures d) d.gfeatures

  unfoldable pub set_features : Rpvdev Y → (features : ℕ) → Rpvdev Y
  set_features d features = notified (record d { gfeatures = features })

  -- `rproc_virtio_negotiate_features`
  unfoldable pub negotiate_features : Rpvdev Y → (features : ℕ) → ℕ × Rpvdev Y
  unfolding get_dfeatures set_features
  negotiate_features d features =
      let both = bit_and features (get_dfeatures d) in (both, set_features d both)

  -- Whether the test of `rproc_virtio_read_config` and `rproc_virtio_write_config` lets an access
  -- pass, for a length that is not negative. The sum has 32 bits, and so may wrap.
  abbrev pub passes : Rpvdev Y → (offset length : ℕ) → Option (Option ℕ)
  passes d offset length =
      if leb ((offset + length) % u32) d.config_len
      then require (leb (offset + length) d.config_len) >> some (some length)
      else some none

  -- `rproc_virtio_read_config`: the bytes, or none if it leaves the destination alone.
  pub read_config : Rpvdev Y → (offset length : ℕ) → Option (Option (ℕ → ℕ))
  read_config d offset length = do
    allowed ← passes d offset length
    some (elim allowed [ none ↦ none | some n ↦ some (λ i. d.config (offset + i)) ])

  -- `rproc_virtio_write_config` of the bytes of `src`.
  pub write_config : Rpvdev Y → (offset : ℕ) → (src : ℕ → ℕ) → (length : ℕ) → Option (Rpvdev Y)
  write_config d offset src length = do
    allowed ← passes d offset length
    some (elim allowed [
      | none ↦ d
      | some n ↦ notified (record d {
        config = λ i. if leb offset i && ltb i (offset + n) then src (i - offset) else d.config i;
      })
    ])

  -- `rproc_virtio_reset_device`
  pub reset_device : Rpvdev Y → Rpvdev Y
  unfolding set_status
  reset_device d = if role_is_driver d.role then set_status d status_needs_reset else d

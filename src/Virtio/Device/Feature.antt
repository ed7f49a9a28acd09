-- ===== src/Virtio/Device/Feature.antt =====
-- What `virtio_has_feature` tests.
use openamp_core.Prelude.{ℕ, ◌^◌, ◌<◌, ◌≡◌, ◌≢◌, none, some, has_flag, arith}
use openamp_core.Virtio.Device.{VirtioDevice, has_feature, test_feature}

module _ {W : Type 0} where
  -- A device that is NULL: `virtio_has_feature` reads through it for each bit of 32, and answers
  -- for no other.
  pub has_feature_null :
      (feature_bit : ℕ) → feature_bit < 32 → has_feature {W = W} none feature_bit ≡ none
  unfolding has_feature
  has_feature_null feature_bit h = ground arith

  -- A device with features that are known answers by the bit, and is as it was.
  pub has_feature_known :
      (vdev : VirtioDevice W) (feature_bit : ℕ)
      → vdev.features ≢ 0
      → feature_bit < 64
      → has_feature (some vdev) feature_bit
        ≡ some (has_flag (2 ^ feature_bit) vdev.features, some vdev)
  unfolding has_feature test_feature
  has_feature_known vdev feature_bit known h = ground arith

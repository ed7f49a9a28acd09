-- ===== src/Virtio/Queues/Made.antt =====
-- The queues that `virtio_create_virtqueues` makes for a driver.
use openamp_core.Prelude.{ℕ, ◌^◌, ◌≤◌, ◌≡◌, true, some, []}
use openamp_core.Virtqueue.State.{Ptr, Virtqueue}
use openamp_core.Virtqueue.Driver.Valid.{IsValid}
use openamp_core.Virtqueue.Driver.Create.{IsCleared, range}
use openamp_core.Virtio.Device.{VringInfo}

-- An entry with a cleared queue, and a ring in its I/O region of `2^k` descriptors.
pub record Fit (k : ℕ) (entry : VringInfo) : Type 0 where
  pub size : entry.info.num_descs ≡ 2 ^ k
  pub io : entry.has_io ≡ true
  pub reached : entry.in_io ≡ true
  pub small : k ≤ 15
  pub queue : Virtqueue
  pub there : entry.vq ≡ some queue
  pub cleared : IsCleared queue

-- An entry with a valid queue of `2^k` free descriptors.
pub record Made (k : ℕ) (callback notify : Ptr) (entry : VringInfo) : Type 0 where
  pub queue : Virtqueue
  pub there : entry.vq ≡ some queue
  pub valid : IsValid k (range 0 (2 ^ k)) [] queue
  pub callback_is : queue.callback ≡ callback
  pub notify_is : queue.notify ≡ notify

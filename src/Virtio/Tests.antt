-- ===== src/Virtio/Tests.antt =====
-- Runs of the model of virtio devices, and the theorems at concrete devices.
use openamp_core.Prelude.{ℕ, true, none, some}
use openamp_core.Virtqueue.State.{driver}
use openamp_core.Virtqueue.Tests.{cleared}
use openamp_core.Virtio.Device.{Dispatch, VringInfo, VirtioDevice}
use openamp_core.Virtio.Queues.Made.{Made}

abbrev table : Dispatch ℕ
table = record {
  delete_virtqueues = none;
  get_status = none;
  set_status = none;
  get_features = none;
  set_features = none;
  negotiate_features = none;
  read_config = none;
  write_config = none;
  reset_device = none;
  notify = 8;
}

-- Two queues, of four descriptors.
abbrev entry : VringInfo
entry = record {
  vq = some cleared;
  info = record { memory = cleared.ring; num_descs = 4 };
  notifyid = 0;
  has_io = true;
  in_io = true;
}

abbrev vdev : VirtioDevice ℕ
vdev = record {
  role = driver;
  id_device = 7;
  features = 1;
  func = some table;
  vrings_num = 2;
  vrings_info = λ i. entry;
  world = 0;
}

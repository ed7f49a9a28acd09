-- ===== src/Remoteproc/Tests/Devices.antt =====
-- A remote processor without memories, whose resource table has one virtio device, on which the
-- theorem about `remoteproc_create_virtio` is applied.
use openamp_core.Prelude.{ℕ, ◌+◌, ◌-◌, ◌≡◌, refl, true, false, Option, none, some, []}
use openamp_core.Virtqueue.State.{device}
use openamp_core.Virtio.Device.{Dispatch}
use openamp_core.Virtio.Queues.{zero_vring}
use openamp_core.Remoteproc.State.{ready, Rproc}
use openamp_core.Remoteproc.Resources.{vdev, Table}
use openamp_core.Remoteproc.Virtio.{Rpvdev}
use openamp_core.Remoteproc.Devices.{DeviceRsc, Platform, create_virtio}
use openamp_core.Remoteproc.Devices.Refused.{absent, create_virtio-returns}

abbrev board : Rproc ℕ
board = record {
  locked = false;
  mems = [];
  bitmap = λ word bit. false;
  ops = record {
    remove = none;
    mmap = none;
    handle_rsc = none;
    config = none;
    start = none;
    stop = none;
    shutdown = none;
    get_mem = none;
  };
  state = ready;
  world = 0;
}

abbrev table : Table
table = record {
  ver = 1;
  num = 1;
  reserved = (0, 0);
  offset = λ i. 20;
  at = λ o. vdev (record { notifyid = 3; num_of_vrings = 1; vring_notifyid = λ i. 4 });
}

-- The other side sets DRIVER_OK at the first turn.
abbrev registers : (status : ℕ) → Rpvdev ℕ
registers status = record {
  role = device;
  notifyid = 3;
  dfeatures = 1;
  gfeatures = 1;
  status = status;
  config_len = 0;
  config = λ i. 0;
  notify = λ n id. n;
  world = 0;
}

abbrev ready_other : Rpvdev ℕ → Rpvdev ℕ
ready_other d = record d { status = 4 }

abbrev rsc : DeviceRsc ℕ
rsc = record {
  id = 7;
  rpvdev = registers 0;
  num_of_vrings = 1;
  vring = λ i. record { da = 4096; align = 4096; num = 16; notifyid = 4 };
}

-- The heap counts the memory in use.
abbrev platform : Platform (Unit {0}) ℕ ℕ
platform = record {
  rproc = board;
  rsc_table = some table;
  resources = λ o. rsc;
  vdevs = [];
  heap = 0;
}

abbrev dispatch : Dispatch (Unit {0})
dispatch = record {
  delete_virtqueues = none;
  get_status = none;
  set_status = none;
  get_features = none;
  set_features = none;
  negotiate_features = none;
  read_config = none;
  write_config = none;
  reset_device = none;
  notify = 99;
}

-- The device is allocated, but its vring cannot be mapped.
create_virtio-returns_example :
    (answer : Option ℕ) × (q : Platform (Unit {0}) ℕ ℕ) × (create_virtio
        (λ a b. true)
        (λ va. zero_vring)
        (λ n. n - 1)
        (λ n size. (true, n + 1))
        200
        64
        dispatch
        tt
        none
        ready_other
        0
        false
        platform
        0
        0
      ≡ some (answer, q))
    × (q.rproc.locked ≡ false)
    × (answer ≡ none → (q.vdevs ≡ []) × (q.heap ≡ 0))
unfolding absent
create_virtio-returns_example =
    create_virtio-returns (λ a b. true) (λ va. zero_vring) (λ n. n - 1) (λ n size. (true, n + 1))
      200 64 dispatch tt none ready_other 0 (λ n. n) (λ n size. refl) (λ n. refl) platform 0 0 table
      refl refl tt (λ e. refl)

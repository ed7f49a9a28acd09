-- ===== src/Transport/Tests.antt =====
-- Runs of the model of rpmsg_virtio.c, and the theorems at concrete devices.
use openamp_core.Prelude.{
  ◌%◌, u16, ℕ, ◌+◌, ◌≡◌, refl, true, false, Option, none, some, [], ◌∷◌, pos, length, arith, inl,
}
use openamp_core.Virtqueue.State.{driver, device, Ptr}
use openamp_core.Virtqueue.Tests.{fresh, fresh-IsValid, serving, serving-IsDevice}
use openamp_core.Virtio.Device.{Dispatch, VirtioDevice, get_status, delete_virtqueues}
use openamp_core.Rpmsg.Endpoint.Unregister.{IsValid}
use openamp_core.Rpmsg.Tests.{busy, busy-IsValid}
use openamp_core.Transport.Header.Counter.{held_times, given_back, held-given_back}
use openamp_core.Transport.Pool.{ShmPool}
use openamp_core.Transport.Pool.Carve.{carve, InOrder, carve_lem}
use openamp_core.Transport.State.{Rvdev, Env}
use openamp_core.Transport.Buffers.{tx_buffer_len, release_tx_buffer}
use openamp_core.Transport.Buffers.DeviceSide.{Ready}
use openamp_core.Transport.Send.{get_tx_payload_buffer}
use openamp_core.Transport.Send.Wait.{Sendable, get_tx_payload_buffer-returns}
use openamp_core.Transport.Send.Unsent.{release-get_tx_payload_buffer}
use openamp_core.Transport.Receive.{rx_callback}
use openamp_core.Transport.Receive.Deliver.{Behaves}
use openamp_core.Transport.Receive.Drain.{rx_callback-drains}
use openamp_core.Virtqueue.Driver.Valid as Driver
use openamp_core.Transport.Init.Fill.{fill_rvq-IsValid}
use openamp_core.Transport.Init.{fill_rvq, deinit_vdev}
use openamp_core.Transport.Init.Teardown.{deinit_vdev-returns}

-- Three holders of the buffer 5 give it back.
held-given_back_example : given_back 3 (held_times 3 5) ≡ (1, 5)
held-given_back_example = held-given_back 5 3 2 0 (omega arith) (omega arith) refl

abbrev pool : ShmPool
pool = record { base = 4096; avail = 1500; size = 2048 }

carve_lem_example :
    (length (carve 2 512 pool).0 ≡ 2)
    × InOrder 4644 6144 512 (carve 2 512 pool).0
    × ((carve 2 512 pool).1 ≡ record pool { avail = 476 })
carve_lem_example =
    carve_lem 2 512 pool (record { placed = omega arith; bounded = omega arith }) (omega arith)
      (omega arith)

-- The environment's state is a count of notifications. Callbacks succeed and count in the world.
abbrev env : Env ℕ ℕ
env = record {
  ept_cb = λ cb r ept p len src priv.
      some (pos 0, record r { rdev = record r.rdev { world = r.rdev.world + 1 } });
  sleep = λ r. r;
  notify_wait_cb = none;
  notify = λ n queue_index. n + 1;
  ept_ns_unbind_cb = λ cb r ept. some r;
  ns_bind_cb = none;
  ns_unbind_cb = none;
  block_write = λ p len. true;
  differ = λ a b. false;
}

env-Behaves : Behaves env
env-Behaves = record {
  returns = λ cb r ept hdr len src priv free. (
    pos 0,
    record r { rdev = record r.rdev { world = r.rdev.world + 1 } },
    refl,
    refl,
    record { rvq_same = refl; held_same = refl; role_same = refl; unlocked = free },
  );
}

-- The table of a platform that is ready.
abbrev table : Dispatch ℕ
table = record {
  delete_virtqueues = some (λ n. n + 100);
  get_status = some (λ n. (4, n + 1));
  set_status = none;
  get_features = none;
  set_features = none;
  negotiate_features = none;
  read_config = none;
  write_config = none;
  reset_device = none;
  notify = 8;
}

abbrev vdev : VirtioDevice ℕ
vdev = record {
  role = device;
  id_device = 7;
  features = 1;
  func = some table;
  vrings_num = 2;
  vrings_info = λ i. record {
    vq = some serving;
    info = record { memory = serving.ring; num_descs = 4 };
    notifyid = i;
    has_io = true;
    in_io = true;
  };
  world = 0;
}

-- A buffer at 4096 that waits in the receive queue, and a message to the endpoint 1030 in it.
abbrev rvdev : Rvdev ℕ ℕ
rvdev = record {
  rdev = busy;
  config = record { h2r_buf_size = 512; r2h_buf_size = 512; split_shpool = false };
  vdev = vdev;
  rvq = serving;
  svq = serving;
  shpool = some pool;
  reclaimer = [];
  hdr = λ p. record { src = 53; dst = 1030; reserved = 65536; len = 4; flags = 0 };
  payload = λ p i. 0;
  clobbered = record { src = 1; dst = 2; reserved = 3; len = 4; flags = 5 };
}

rvdev-Ready : Ready 2 65535 1 0 (0 ∷ []) [] rvdev
rvdev-Ready = record {
  role = refl;
  unlocked = refl;
  queue = serving-IsDevice;
  waits = record { index = omega arith; room = omega arith; apart = refl; heads_are = refl };
  used = record { index = omega arith; room = omega arith; apart = refl; elems_are = refl };
  room = omega arith;
  inside = (omega arith, tt);
  mapped = (omega arith, tt);
}

rx_callback-drains_example :
    (s : Rvdev ℕ ℕ) × (rx_callback env true true 2 rvdev ≡ some s)
    × Ready 2 65535 0 1 [] (record { id = 0; len = 16 } ∷ []) s
rx_callback-drains_example =
    rx_callback-drains env true true env-Behaves 2 65535 1 0 (0 ∷ []) [] 2 rvdev rvdev-Ready
      (omega arith)

deinit_vdev-returns_example :
    (s : Rvdev ℕ ℕ) × (deinit_vdev env true 2 rvdev ≡ some s)
    × (s.rdev.endpoints ≡ [])
    × IsValid s.rdev
    × (s.vdev ≡ delete_virtqueues vdev)
deinit_vdev-returns_example = deinit_vdev-returns env true 2 rvdev busy-IsValid (omega arith)

-- A driver, with a buffer that was taken for sending.
abbrev sender : Rvdev ℕ ℕ
sender = record rvdev { vdev = record vdev { role = driver } }

sender-Sendable : Sendable sender
sender-Sendable = record { role = refl; unlocked = refl; nothing = refl; queue = inl refl }

get_tx_payload_buffer-returns_example :
    (buffer : Option (Ptr × ℕ)) × (s : Rvdev ℕ ℕ) × (get_tx_payload_buffer env true 15001 sender
        true
      ≡ some (buffer, s))
unfolding get_status
get_tx_payload_buffer-returns_example =
    get_tx_payload_buffer-returns env true 15001 true 4 1 sender refl (λ q v. v) sender-Sendable
      refl refl (omega arith)

release-get_tx_payload_buffer_example :
    (s t : Rvdev ℕ ℕ) × (release_tx_buffer env true sender 4112 ≡ some s)
    × (get_tx_payload_buffer env true 1 s false ≡ some (some (4112, 496), t))
    × ((t.hdr 4096).reserved ≡ 65536)
    × (t.reclaimer ≡ [])
    × (t.svq ≡ sender.svq)
    × (t.shpool ≡ sender.shpool)
unfolding tx_buffer_len get_status
release-get_tx_payload_buffer_example =
    release-get_tx_payload_buffer env true 0 false 0 4 1 4112 sender refl refl refl (omega arith)
      (omega arith) refl (omega arith) (omega arith) refl refl

abbrev wide_pool : ShmPool
wide_pool = record { base = 4096; avail = 2560; size = 4096 }

-- A driver whose receive queue is new.
abbrev starting : Rvdev ℕ ℕ
starting = record sender { rvq = fresh }

fill_rvq-IsValid_example :
    (s : Rvdev ℕ ℕ) × (fill_rvq env true 4 (some wide_pool) starting
      ≡ some (pos 0, some (record wide_pool { avail = 512 }), s))
    × Driver.IsValid 2 [] ((3, []) ∷ (2, []) ∷ (1, []) ∷ (0, []) ∷ []) s.rvq
    × (s.rvq.ring.avail_idx % u16 ≡ (65535 + 4) % u16)
    × (s.config ≡ starting.config)
    × (s.svq ≡ starting.svq)
fill_rvq-IsValid_example =
    fill_rvq-IsValid env true 2 (0 ∷ 1 ∷ 2 ∷ 3 ∷ []) [] wide_pool starting fresh-IsValid
      (record { placed = omega arith; bounded = omega arith }) (omega arith) (omega arith)

-- ===== src/Virtqueue/Tests.antt =====
-- Runs of the virtqueue functions on a ring of four descriptors, and the theorems at such rings.
use openamp_core.Prelude.{
  ℕ, ◌+◌, ◌-◌, ◌%◌, ◌<◌, ◌≡◌, ◌↔◌, refl, Bool, true, false, none, some, List, [], ◌∷◌, arith,
  if◌then◌else◌, ◌==◌, update, u16,
}
use openamp_core.Vring.{Desc, Vring, sub16}
use openamp_core.Virtqueue.State.{driver, device, success, error_vring_full, Buf, Io, Virtqueue}
use openamp_core.Virtqueue.Driver.{AllocInfo, create, add_buffer, get_buffer}
use openamp_core.Virtqueue.Driver.Valid.{IsValid}
use openamp_core.Virtqueue.Driver.Enqueue.{Written}
use openamp_core.Virtqueue.Driver.AddResult.{Offered, add_buffer-IsValid}
use openamp_core.Virtqueue.Driver.AddFull.{add_buffer_full}
use openamp_core.Virtqueue.Driver.Get.{get_buffer-IsValid}
use openamp_core.Virtqueue.Driver.Create.{IsCleared, create-IsValid}
use openamp_core.Virtqueue.Device.{get_available_buffer, add_consumed_buffer}
use openamp_core.Virtqueue.Device.Fifo.{
  IsDevice, Waits, UsedWaits, get_available_buffer_lem, add_consumed_buffer_lem,
}
use openamp_core.Virtqueue.Cycle.{share, add-take-consume-get}
use openamp_core.Virtqueue.Interrupts.{kick, disable_cb, ring_must_notify}
use openamp_core.Virtqueue.Interrupts.Notify.{kick_event, disable_cb-silent, disabled}

abbrev no_desc : Desc
no_desc = record { addr = 0; len = 0; flags = 0; next = 0 }

-- Cleared shared memory.
abbrev pub blank : Vring
blank = record {
  desc = λ _. no_desc;
  avail_flags = 0;
  avail_idx = 65535;
  avail_ring = λ _. 0;
  used_event = 0;
  used_flags = 0;
  used_idx = 65535;
  used_ring = λ _. record { id = 0; len = 0 };
  avail_event = 0;
}

-- Physical addresses lie 4096 above virtual ones.
abbrev shm : Io
shm = record { virt_to_phys = λ a. a + 4096; phys_to_virt = λ a. a - 4096 }

abbrev pub fresh : Virtqueue
fresh = record {
  role = driver;
  event_idx = true;
  queue_index = 0;
  nentries = 4;
  callback = 7;
  notify = 8;
  ring = record blank { desc = λ i. record no_desc { next = if i == 3 then 32768 else i + 1 } };
  free_cnt = 4;
  queued_cnt = 0;
  shm_io = shm;
  desc_head_idx = 0;
  used_cons_idx = 65535;
  available_idx = 65535;
  inuse = false;
  descx = λ _. record { cookie = 0; ndescs = 0 };
}

pub fresh-IsValid : IsValid 2 (0 ∷ 1 ∷ 2 ∷ 3 ∷ []) [] fresh
fresh-IsValid = record {
  size = refl;
  small = omega arith;
  idle = refl;
  free = (refl, (refl, (refl, (refl, refl))));
  free_count = refl;
  unused = (refl, (refl, (refl, (refl, tt))));
  flight = tt;
  parts = λ x. ground arith;
  total = refl;
}

abbrev two_bufs : List Buf
two_bufs = record { buf = 100; len = 16 } ∷ record { buf = 200; len = 32 } ∷ []

-- The chain 0, 1 in flight under the cookie 99, and its head in the used ring.
abbrev answered : Virtqueue
answered = record fresh {
  ring = record blank {
    desc =
        update (update fresh.ring.desc 0 (record { addr = 4196; len = 16; flags = 1; next = 1 })) 1
          (record { addr = 4296; len = 32; flags = 2; next = 2 });
    avail_idx = 0;
    used_idx = 0;
    used_ring = λ _. record { id = 0; len = 5 };
  };
  free_cnt = 2;
  desc_head_idx = 2;
  descx = update fresh.descx 0 (record { cookie = 99; ndescs = 2 });
}

answered-IsValid : IsValid 2 (2 ∷ 3 ∷ []) ((0, 1 ∷ []) ∷ []) answered
answered-IsValid = record {
  size = refl;
  small = omega arith;
  idle = refl;
  free = (refl, (refl, refl));
  free_count = refl;
  unused = (refl, (refl, tt));
  flight = (
    record {
      chain = (refl, refl, refl);
      counted = refl;
      marked = omega arith;
      unmarked = (refl, tt);
      direct = refl;
    },
    tt,
  );
  parts = λ x. ground arith;
  total = refl;
}

add_buffer-IsValid_example :
    (q : Virtqueue) × (add_buffer true fresh two_bufs 1 1 99 ≡ some (success, q))
    × IsValid 2 (2 ∷ 3 ∷ []) ((0, 1 ∷ []) ∷ []) q
    × Written shm 1 2 0 q.ring.desc (0 ∷ 1 ∷ []) two_bufs
    × Offered 0 99 fresh q
add_buffer-IsValid_example =
    add_buffer-IsValid true 2 0 (1 ∷ []) (2 ∷ 3 ∷ []) [] fresh two_bufs 1 1 99 fresh-IsValid refl
      refl (omega arith)

add_buffer_full_example :
    (add_buffer true answered two_bufs 3 0 99 ≡ some (error_vring_full, answered))
    × (add_buffer false answered two_bufs 3 0 99 ≡ none)
add_buffer_full_example =
    add_buffer_full 2 (2 ∷ 3 ∷ []) ((0, 1 ∷ []) ∷ []) answered two_bufs 3 0 99 answered-IsValid
      (omega arith)

get_buffer-IsValid_example :
    (q : Virtqueue) × (get_buffer false answered
      ≡ some (some (record { cookie = 99; len = 5; idx = 3 }), q))
    × IsValid 2 (0 ∷ 1 ∷ 2 ∷ 3 ∷ []) [] q
    × (q.used_cons_idx ≡ 0)
    × (q.ring ≡ record answered.ring { desc = q.ring.desc })
get_buffer-IsValid_example =
    get_buffer-IsValid false 2 0 (1 ∷ []) (2 ∷ 3 ∷ []) [] [] answered answered-IsValid (omega arith)
      refl

add-take-consume-get_example :
    (q dv1 dv2 q2 : Virtqueue) × (add_buffer false fresh two_bufs 2 0 99 ≡ some (success, q))
    × (get_available_buffer false (share q.ring fresh)
        ≡ some (some (record { buffer = 100; avail_idx = 0; len = 16 }), dv1))
    × (add_consumed_buffer false dv1 0 5 ≡ some (success, dv2))
    × (get_buffer false (share dv2.ring q)
        ≡ some (some (record { cookie = 99; len = 5; idx = 3 }), q2))
    × IsValid 2 (0 ∷ 1 ∷ 2 ∷ 3 ∷ []) [] q2
add-take-consume-get_example =
    add-take-consume-get false 2 0 (1 ∷ []) (2 ∷ 3 ∷ []) [] fresh fresh
      (record { buf = 100; len = 16 }) (record { buf = 200; len = 32 } ∷ []) 2 0 99 5 fresh-IsValid
      refl refl (omega arith) (record { size = refl; small = omega arith; idle = refl })
      (record { index = omega arith; room = omega arith; apart = refl; heads_are = refl })
      (record { index = omega arith; room = omega arith; apart = refl; elems_are = refl }) refl

-- The device's view when the chain of `answered` waits and nothing is used yet.
abbrev pub serving : Virtqueue
serving = record answered { role = device; ring = record answered.ring { used_idx = 65535 } }

pub serving-IsDevice : IsDevice 2 serving
serving-IsDevice = record { size = refl; small = omega arith; idle = refl }

get_available_buffer_lem_example :
    (q : Virtqueue) × (get_available_buffer true serving
      ≡ some (some (record { buffer = 100; avail_idx = 0; len = 16 }), q))
    × IsDevice 2 q
    × Waits 2 q [] 0
    × (q.ring ≡ serving.ring)
get_available_buffer_lem_example =
    get_available_buffer_lem true 2 0 0 [] serving serving-IsDevice
      (record { index = omega arith; room = omega arith; apart = refl; heads_are = refl })
      (omega arith)

add_consumed_buffer_lem_example :
    (q : Virtqueue) × (add_consumed_buffer true serving 0 5 ≡ some (success, q))
    × IsDevice 2 q
    × UsedWaits 2 65535 q.ring (record { id = 0; len = 5 } ∷ []) 1
    × (q.queued_cnt ≡ 1)
    × (q.ring ≡ record serving.ring { used_ring = q.ring.used_ring; used_idx = q.ring.used_idx })
add_consumed_buffer_lem_example =
    add_consumed_buffer_lem true 2 65535 0 5 0 [] serving serving-IsDevice
      (record { index = omega arith; room = omega arith; apart = refl; elems_are = refl })
      (omega arith) (omega arith)

abbrev pub cleared : Virtqueue
cleared = record fresh { nentries = 0; free_cnt = 0; callback = 0; notify = 0; ring = blank }

pub cleared-IsCleared : IsCleared cleared
cleared-IsCleared = record { head = refl; idle = refl; cookies = λ x. refl }

create-IsValid_example :
    (q : Virtqueue) × (create true driver true 1
        (some (record { memory = blank; num_descs = 4 }))
        7
        8
        (some cleared)
      ≡ some (success, some q))
    × IsValid 2 (0 ∷ 1 ∷ 2 ∷ 3 ∷ []) [] q
    × (q.callback ≡ 7)
    × (q.notify ≡ 8)
create-IsValid_example =
    create-IsValid true true 2 1 (record { memory = blank; num_descs = 4 }) 7 8 cleared refl
      (omega arith) cleared-IsCleared

abbrev six : AllocInfo
six = record { memory = blank; num_descs = 6 }

-- Two entries are queued behind index 65535, and the other side asked for the second.
abbrev kicking : Virtqueue
kicking = record fresh { queued_cnt = 2; ring = record blank { avail_idx = 1; avail_event = 0 } }

kick_event_example :
    (b : Bool) × (q : Virtqueue) × (kick true kicking ≡ some (b, q))
    × ((b ≡ true) ↔ ((i : ℕ) × (i < 2) × (◌≡◌ {A = ℕ} 0 ((sub16 1 2 + i) % u16))))
    × (q ≡ record kicking { queued_cnt = 0 })
kick_event_example =
    kick_event true kicking refl refl refl (omega arith) (omega arith) (omega arith) (omega arith)

-- The device on the ring whose driver has disabled callbacks, with two entries published.
abbrev silenced : Virtqueue
silenced = record serving { ring = record (disabled fresh).ring { used_idx = 1 }; queued_cnt = 2 }

disable_cb-silent_example :
    (disable_cb true fresh ≡ some (disabled fresh)) × (ring_must_notify silenced ≡ false)
disable_cb-silent_example =
    disable_cb-silent true fresh silenced 2 refl refl (omega arith) (omega arith) refl refl
      (record { used_event = refl; avail_event = refl; avail_flags = refl; used_flags = refl })
      (omega arith) (omega arith) refl

-- ===== src/Vring/Tests.antt =====
-- The ring layout and the event test at concrete rings.
use openamp_core.Prelude.{ℕ, ◌+◌, ◌%◌, ◌≤◌, ◌<◌, ◌≡◌, ◌↔◌, true, arith, u16}
use openamp_core.Vring.{vring_size, vring_init, vring_need_event, sub16}
use openamp_core.Vring.Event.{vring_need_event_lem}
use openamp_core.Vring.Layout.{driver_bytes, used_end, vring_init-vring_size}

-- The transmit ring of the demo: 16 descriptors, aligned to 4.
vring_init-vring_size_example :
    let at = vring_init 16 4096 4 in
    (at.desc ≡ 4096)
    × (at.avail ≡ 4352)
    × (4096 + driver_bytes 16 ≤ at.used)
    × (at.used % 4 ≡ 0)
    × (used_end 16 at ≡ 4096 + vring_size 16 4)
vring_init-vring_size_example =
    vring_init-vring_size 2 16 4096 (omega arith) (omega arith) (omega arith)

vring_need_event_lem_example :
    (vring_need_event 65535 1 65534 ≡ true)
    ↔ ((i : ℕ) × (i < sub16 1 65534) × (◌≡◌ {A = ℕ} 65535 ((65534 + i) % u16)))
vring_need_event_lem_example =
    vring_need_event_lem 65535 1 65534 (omega arith) (omega arith) (omega arith)

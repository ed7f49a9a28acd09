-- ===== src/Remoteproc/Queues/Waits.antt =====
-- The wait for the other side in `rproc_virtio_wait_remote_ready` of
-- remoteproc/remoteproc_virtio.c.
use openamp_core.Prelude.{
  ℕ, zero, suc, ◌<◌, ◌≡◌, refl, true, some, has_flag, Bool-cases, inl, inr, arith,
}
use openamp_core.Virtio.Device.{status_driver_ok}
use openamp_core.Remoteproc.Virtio.{Rpvdev, get_status}
use openamp_core.Remoteproc.Queues.{wait_loop}

-- What the other side has made of the registers after some turns.
abbrev after_turns : {Y : Type 0} → (Rpvdev Y → Rpvdev Y) → (turns : ℕ) → Rpvdev Y → Rpvdev Y
after_turns yield zero d = d
after_turns yield (suc turns) d = after_turns yield turns (yield d)

-- If the other side has set DRIVER_OK after some turns, the wait ends, with DRIVER_OK set.
pub wait_loop-returns :
    {Y : Type 0} (yield : Rpvdev Y → Rpvdev Y) (turns rounds : ℕ) (d : Rpvdev Y)
    → has_flag status_driver_ok (get_status (after_turns yield turns d)) ≡ true
    → turns < rounds
    → (e : Rpvdev Y) × (wait_loop yield rounds d ≡ some e)
      × (has_flag status_driver_ok (get_status e) ≡ true)
unfolding wait_loop
wait_loop-returns yield turns zero d ready enough = absurd (omega arith)
wait_loop-returns yield zero (suc rounds) d ready enough = rw ready (d, refl, ready)
wait_loop-returns yield (suc turns) (suc rounds) d ready enough =
    elim (Bool-cases (has_flag status_driver_ok (get_status d))) [
      | inl now ↦ rw now (d, refl, now)
      | inr later ↦ rw later (wait_loop-returns yield turns rounds (yield d) ready (omega arith))
    ]

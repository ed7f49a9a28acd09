-- ===== src/Transport/Receive.antt =====
-- Receiving in rpmsg_virtio.c: the callback of the receive queue.
pub mod Deliver
pub mod GiveBack
pub mod Round
pub mod Drain
use openamp_core.Prelude.{
  ℕ, zero, suc, ◌+◌, ◌-◌, ◌%◌, Bool, true, false, not, ◌&&◌, ◌||◌, Option, none, some, ℤ,
  is_negative, ◌==◌, if◌then◌else◌, ◌>>=◌, ◌>>◌, require, update,
}
use openamp_core.Utilities.{Chars}
use openamp_core.Virtqueue.State.{Ptr}
use openamp_core.Rpmsg.Address.{rpmsg_addr_any}
use openamp_core.Rpmsg.Endpoint.{Device, Endpoint, set_ept, get_endpoint, ept_incref, ept_decref}
use openamp_core.Transport.Header.{Hdr, held_inc, held_dec_test}
use openamp_core.Transport.State.{Rvdev, Env, locate_data, set_reserved, kick_rvq}
use openamp_core.Transport.Buffers.{
  Taken, get_rx_buffer, release_rx_buffer_nolock, acquire, release,
}

module _ {W V : Type 0} (env : Env W V) (debug empty_notify : Bool) where
  -- The endpoint for an address, 0 for NULL: `rpmsg_get_ept_from_addr`.
  pub ept_from_addr : Rvdev W V → (addr : ℕ) → Ptr
  ept_from_addr r addr = elim (get_endpoint env.differ r.rdev none addr rpmsg_addr_any) [
    | none ↦ 0
    | some p ↦ p
  ]

  -- The first message that an endpoint gets gives it its destination.
  pub greet : Rvdev W V → (ept hdr : Ptr) → Rvdev W V
  greet r ept hdr =
      let e = r.rdev.ept ept in
      if e.dest_addr == rpmsg_addr_any
      then record r { rdev = set_ept r.rdev ept (record e { dest_addr = (r.hdr hdr).src }) }
      else r

  -- The call of the endpoint's callback, outside the lock.
  pub deliver : Rvdev W V → (ept hdr : Ptr) → Option (Rvdev W V)
  deliver r ept hdr = if ept == 0 then some r else do
    let e = r.rdev.ept ept
    let h = r.hdr hdr
    (status, done) ← env.ept_cb e.cb (greet r ept hdr) ept (locate_data hdr) h.len h.src e.priv
    require (not (is_negative status))
    some done

  -- The end of a round: the buffer goes back if nobody holds it. Whether one did.
  pub give_back : Rvdev W V → (hdr : Ptr) → Option (Bool × Rvdev W V)
  give_back r hdr = do
    let (last, reserved) = held_dec_test (r.hdr hdr).reserved
    let counted = set_reserved r hdr reserved
    if last
        then (do
          returned ← release_rx_buffer_nolock env debug counted hdr
          if empty_notify
              then some (true, returned)
              else (kick_rvq env debug returned >>= λ kicked. some (true, kicked)))
        else some (false, counted)

  -- A round of the loop with a buffer, from under the lock to behind it.
  pub receive : Rvdev W V → Taken → Option (Bool × Rvdev W V)
  receive r taken = do
    let hdr = taken.buffer
    let ept = ept_from_addr r (r.hdr hdr).dst
    let held = set_reserved r hdr (held_inc taken.idx)
    let shared = record held { rdev = ept_incref held.rdev ept }
    delivered ← deliver (release env debug shared) ept hdr
    again ← acquire env debug delivered
    (back, done) ← give_back (record again { rdev = ept_decref again.rdev ept }) hdr
    some (back, release env debug done)

  -- The loop of `rpmsg_virtio_rx_callback`; `none` also if the fuel runs out.
  pub rx_loop : (fuel : ℕ) (released : Bool) → Rvdev W V → Option (Rvdev W V)
  rx_loop zero released r = none
  rx_loop (suc fuel) released r = do
    held ← acquire env debug r
    (taken, got) ← get_rx_buffer env debug held
    elim taken [
      | none ↦
          ((if empty_notify && released then kick_rvq env debug got else some got) >>= λ done.
          some (release env debug done))
      | some t ↦ (receive got t >>= λ done. rx_loop fuel (released || done.0) done.1)
    ]

  -- `rpmsg_virtio_rx_callback`
  pub rx_callback : (fuel : ℕ) → Rvdev W V → Option (Rvdev W V)
  unfolding rx_loop
  rx_callback fuel r = rx_loop fuel false r

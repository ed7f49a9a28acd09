-- ===== src/Rpmsg/Send.antt =====
-- The ways to send over an endpoint: include/openamp/rpmsg.h, and the send without a copy of
-- rpmsg/rpmsg.c.
pub mod Ready
use openamp_core.Prelude.{
  ℕ, Bool, true, false, not, ◌&&◌, Option, none, some, ℤ, ◌==◌, if◌then◌else◌,
}
use openamp_core.Rpmsg.Address.{rpmsg_err_param, rpmsg_addr_any}
use openamp_core.Rpmsg.Endpoint.{Ptr, Data, Device, cannot_send, send_raw}

module _ {W : Type 0} where
  -- `rpmsg_send_offchannel_nocopy`
  pub send_offchannel_nocopy : Device W → Ptr → (src dst : ℕ) → Data → (len : ℤ) → ℤ × Device W
  send_offchannel_nocopy d p src dst payload len =
      if cannot_send d p dst payload len
      then (rpmsg_err_param, d)
      else elim d.ops.send_offchannel_nocopy [
        | none ↦ (rpmsg_err_param, d)
        | some op ↦
            (let (ret, world) = op d.world src dst payload len in (ret, record d { world = world }))
      ]

  -- `rpmsg_send`
  pub send : Device W → Ptr → Data → (len : ℤ) → ℤ × Device W
  send d p payload len =
      if p == 0
      then (rpmsg_err_param, d)
      else send_raw d p (d.ept p).addr (d.ept p).dest_addr payload len true

  -- `rpmsg_sendto`
  pub sendto : Device W → Ptr → Data → (len : ℤ) → (dst : ℕ) → ℤ × Device W
  sendto d p payload len dst =
      if p == 0 then (rpmsg_err_param, d) else send_raw d p (d.ept p).addr dst payload len true

  -- `rpmsg_send_offchannel`
  pub send_offchannel : Device W → Ptr → (src dst : ℕ) → Data → (len : ℤ) → ℤ × Device W
  send_offchannel d p src dst payload len = send_raw d p src dst payload len true

  -- `rpmsg_trysend`
  pub trysend : Device W → Ptr → Data → (len : ℤ) → ℤ × Device W
  trysend d p payload len =
      if p == 0
      then (rpmsg_err_param, d)
      else send_raw d p (d.ept p).addr (d.ept p).dest_addr payload len false

  -- `rpmsg_trysendto`
  pub trysendto : Device W → Ptr → Data → (len : ℤ) → (dst : ℕ) → ℤ × Device W
  trysendto d p payload len dst =
      if p == 0 then (rpmsg_err_param, d) else send_raw d p (d.ept p).addr dst payload len false

  -- `rpmsg_trysend_offchannel`
  pub trysend_offchannel : Device W → Ptr → (src dst : ℕ) → Data → (len : ℤ) → ℤ × Device W
  trysend_offchannel d p src dst payload len = send_raw d p src dst payload len false

  -- `rpmsg_sendto_nocopy`
  pub sendto_nocopy : Device W → Ptr → Data → (len : ℤ) → (dst : ℕ) → ℤ × Device W
  sendto_nocopy d p payload len dst =
      if p == 0
      then (rpmsg_err_param, d)
      else send_offchannel_nocopy d p (d.ept p).addr dst payload len

  -- `rpmsg_send_nocopy`
  pub send_nocopy : Device W → Ptr → Data → (len : ℤ) → ℤ × Device W
  send_nocopy d p payload len =
      if p == 0
      then (rpmsg_err_param, d)
      else send_offchannel_nocopy d p (d.ept p).addr (d.ept p).dest_addr payload len

  -- `is_rpmsg_ept_ready`
  pub is_ept_ready : Device W → Ptr → Bool
  is_ept_ready d p = not (p == 0) && (d.ept p).rdev && not ((d.ept p).dest_addr == rpmsg_addr_any)

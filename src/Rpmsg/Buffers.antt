-- ===== src/Rpmsg/Buffers.antt =====
-- The buffers of a transport, as an endpoint sees them: rpmsg/rpmsg.c.
use openamp_core.Prelude.{ℕ, Bool, not, ◌||◌, Option, none, some, ℤ, negsuc, ◌==◌, if◌then◌else◌}
use openamp_core.Rpmsg.Address.{rpmsg_err_param}
use openamp_core.Rpmsg.Endpoint.{Ptr, Device}

abbrev pub rpmsg_err_perm : ℤ
rpmsg_err_perm = negsuc 2007

abbrev pub rpmsg_eopnotsupp : ℤ
rpmsg_eopnotsupp = negsuc 2008

module _ {W : Type 0} where
  abbrev pub is_unbound : Device W → Ptr → Bool
  is_unbound d p = (p == 0) || not (d.ept p).rdev

  -- `rpmsg_hold_rx_buffer`
  pub hold_rx_buffer : Device W → Ptr → (rxbuf : Ptr) → Device W
  hold_rx_buffer d p rxbuf =
      if is_unbound d p || (rxbuf == 0)
      then d
      else elim d.ops.hold_rx_buffer [ none ↦ d | some op ↦ record d { world = op d.world rxbuf } ]

  -- `rpmsg_release_rx_buffer`
  pub release_rx_buffer : Device W → Ptr → (rxbuf : Ptr) → Device W
  release_rx_buffer d p rxbuf =
      if is_unbound d p || (rxbuf == 0) then d else elim d.ops.release_rx_buffer [
        | none ↦ d
        | some op ↦ record d { world = op d.world rxbuf }
      ]

  -- `rpmsg_release_tx_buffer`
  pub release_tx_buffer : Device W → Ptr → (buf : Ptr) → ℤ × Device W
  release_tx_buffer d p buf =
      if is_unbound d p || (buf == 0) then (rpmsg_err_param, d) else elim d.ops.release_tx_buffer [
        | none ↦ (rpmsg_err_perm, d)
        | some op ↦ (let (ret, world) = op d.world buf in (ret, record d { world = world }))
      ]

  -- `rpmsg_get_tx_payload_buffer`: the buffer, and what is written to `*len` if something is;
  -- `has_len` says whether `len` is not NULL.
  pub get_tx_payload_buffer : Device W → Ptr → (has_len wait : Bool) → Ptr × Option ℕ × Device W
  get_tx_payload_buffer d p has_len wait =
      if is_unbound d p || not has_len then (0, none, d) else elim d.ops.get_tx_payload_buffer [
        | none ↦ (0, none, d)
        | some op ↦
            (let (buf, len, world) = op d.world wait in (buf, some len, record d { world = world }))
      ]

  -- `rpmsg_get_tx_buffer_size`
  pub get_tx_buffer_size : Device W → Ptr → ℤ
  get_tx_buffer_size d p =
      if is_unbound d p
      then rpmsg_err_param
      else elim d.ops.get_tx_buffer_size [ none ↦ rpmsg_eopnotsupp | some op ↦ op d.world ]

  -- `rpmsg_get_rx_buffer_size`
  pub get_rx_buffer_size : Device W → Ptr → ℤ
  get_rx_buffer_size d p =
      if is_unbound d p
      then rpmsg_err_param
      else elim d.ops.get_rx_buffer_size [ none ↦ rpmsg_eopnotsupp | some op ↦ op d.world ]

-- ===== src/Transport/Send.antt =====
-- Sending in rpmsg_virtio.c.
pub mod Wait
pub mod Unsent
use openamp_core.Prelude.{
  ℕ, zero, suc, ◌+◌, ◌-◌, ◌%◌, Bool, true, false, not, ◌||◌, Option, none, some, ℤ, pos, negsuc,
  is_negative, is_success, min, ltb, leb, ◌==◌, if◌then◌else◌, ◌>>=◌, ◌>>◌, require, update,
  has_flag, u16, u32,
}
use openamp_core.Utilities.{Chars}
use openamp_core.Virtqueue.State.{Role, driver, device, role_is_driver, role_is_device, Ptr}
use openamp_core.Virtqueue.Device.{get_buffer_length, get_desc_size}
use openamp_core.Virtio.Device.{get_status, status_driver_ok}
use openamp_core.Virtio.Queues.{is_ok}
use openamp_core.Transport.Header.{Hdr, held_inc}
use openamp_core.Transport.State.{
  Rvdev, Env, sizeof_hdr, locate_hdr, locate_data, set_hdr, set_reserved, kick_svq,
}
use openamp_core.Transport.Buffers.{Taken, get_tx_buffer, enqueue_buffer, acquire, release}

abbrev rpmsg_err_no_buff : ℤ
rpmsg_err_no_buff = negsuc 2001

abbrev rpmsg_eopnotsupp : ℤ
rpmsg_eopnotsupp = negsuc 2008

abbrev is_eopnotsupp : ℤ → Bool
is_eopnotsupp (pos n) = false
is_eopnotsupp (negsuc n) = n == 2008

-- RPMSG_TICK_COUNT / RPMSG_TICKS_PER_INTERVAL
abbrev pub wait_ticks : ℕ
wait_ticks = 15000

module _ {W V : Type 0} (env : Env W V) (debug : Bool) where
  -- `rpmsg_virtio_notify_wait` on the receive queue: what it answers, with the device after it.
  pub notify_wait : Rvdev W V → ℤ × Rvdev W V
  notify_wait r = elim env.notify_wait_cb [
    | none ↦ (rpmsg_eopnotsupp, r)
    | some cb ↦ cb r (r.vdev.vrings_info r.rvq.queue_index).notifyid
  ]

  -- `rpmsg_virtio_get_tx_buffer` under the lock.
  pub locked_tx_buffer : Rvdev W V → Option (Option Taken × Rvdev W V)
  locked_tx_buffer r = do
    held ← acquire env debug r
    (taken, got) ← get_tx_buffer env debug held
    some (taken, release env debug got)

  -- A round of the wait loop behind the call for a buffer, with `tick_count` ticks left and the
  -- further rounds as `again`.
  pub wait_round :
      (again : (tick_count : ℕ) → Rvdev W V → Option (Option Taken × Rvdev W V))
      → Option Taken
      → (tick_count : ℕ) → Rvdev W V
      → Option (Option Taken × Rvdev W V)
  wait_round again (some t) tick_count r = some (some t, r)
  wait_round again none tick_count r = elim (tick_count == 0) [
    | true ↦ some (none, r)
    | false ↦
        (let (status, waited) = notify_wait r in
          elim (is_eopnotsupp status) [
            | true ↦ again (tick_count - 1) (env.sleep waited)
            | false ↦ elim (is_success status) [
              | true ↦ again tick_count waited
              | false ↦ some (none, waited)
            ]
          ])
  ]

  -- The wait loop of `rpmsg_virtio_get_tx_payload_buffer` with `tick_count` ticks left. `none` also
  -- if the fuel runs out.
  pub wait_tx_buffer : (fuel tick_count : ℕ) → Rvdev W V → Option (Option Taken × Rvdev W V)
  wait_tx_buffer zero tick_count r = none
  wait_tx_buffer (suc fuel) tick_count r = locked_tx_buffer r >>= λ got.
      wait_round (λ ticks q. wait_tx_buffer fuel ticks q) got.0 tick_count got.1

  -- The end of `rpmsg_virtio_get_tx_payload_buffer`: the payload of the buffer, with its length,
  -- which is unsigned; the buffer is held once.
  abbrev pub tx_payload : Option Taken → Rvdev W V → Option (Ptr × ℕ) × Rvdev W V
  tx_payload none r = (none, r)
  tx_payload (some t) r = (
    some (locate_data t.buffer, (t.len + u32 - sizeof_hdr) % u32),
    set_reserved r t.buffer (held_inc t.idx),
  )

  -- `rpmsg_virtio_get_tx_payload_buffer`; the answer `none` is NULL.
  pub get_tx_payload_buffer :
      (fuel : ℕ) → Rvdev W V → (wait : Bool) → Option (Option (Ptr × ℕ) × Rvdev W V)
  unfolding wait_tx_buffer
  get_tx_payload_buffer fuel r wait =
      let (status, virtio_status, vdev) = get_status r.vdev in
      let asked = record r { vdev = vdev } in
      if not (is_success status) || not (has_flag status_driver_ok virtio_status)
      then some (none, asked)
      else do
        (taken, next) ← wait_tx_buffer fuel (if wait then wait_ticks else 0) asked
        some (tx_payload taken next)

  -- `rpmsg_virtio_send_offchannel_nocopy` of `len` bytes at `p`: the device after it, which answers
  -- `len`. The header takes 16 bits of the length.
  pub send_offchannel_nocopy :
      Rvdev W V → (src dst : ℕ) → (p : Ptr) → (len : ℕ) → Option (ℕ × Rvdev W V)
  send_offchannel_nocopy r src dst p len = do
    let hdr = locate_hdr p
    let idx = (r.hdr hdr).reserved % u16
    require (env.block_write hdr sizeof_hdr)
    let written =
        set_hdr r hdr (record { src = src; dst = dst; reserved = 0; len = len % u16; flags = 0 })
    held ← acquire env debug written
    buff_len ←
        (if role_is_driver held.vdev.role
          then some held.config.h2r_buf_size
          else get_buffer_length held.svq idx)
    (status, queued) ← enqueue_buffer env debug held hdr buff_len idx
    require (is_ok status)
    kicked ← kick_svq env debug queued
    some (len, release env debug kicked)

  -- `rpmsg_virtio_send_offchannel_raw` of `len` bytes. A buffer whose length does not fit an `int`
  -- makes the copy fail.
  pub send_offchannel_raw :
      (fuel : ℕ)
      → Rvdev W V
      → (src dst : ℕ) → (bytes : Chars) → (len : ℕ) → (wait : Bool) → Option (ℤ × Rvdev W V)
  unfolding get_tx_payload_buffer send_offchannel_nocopy
  send_offchannel_raw fuel r src dst bytes len wait = do
    (buffer, next) ← get_tx_payload_buffer fuel r wait
    elim buffer [
      | none ↦ some (rpmsg_err_no_buff, next)
      | some (p, buff_len) ↦ (do
        require (ltb buff_len 2147483648)
        let n = if ltb buff_len len then buff_len else len
        require (env.block_write p n)
        let copied = record next {
          payload = update next.payload p (λ i. if ltb i n then bytes i else next.payload p i);
        }
        (sent, done) ← send_offchannel_nocopy copied src dst p n
        some (pos sent, done))
    ]

  -- `size <= 0` becomes RPMSG_ERR_NO_BUFF; a size that is unsigned is read as an `int`.
  abbrev pub size_or_error : ℕ → ℤ
  size_or_error size = if (size == 0) || leb 2147483648 size then rpmsg_err_no_buff else pos size

  -- `rpmsg_virtio_get_tx_buffer_size` of a device that is not NULL.
  pub get_tx_buffer_size : Rvdev W V → Option (ℤ × Rvdev W V)
  get_tx_buffer_size r = do
    held ← acquire env debug r
    (size, next) ←
        (if role_is_driver held.vdev.role
          then some ((held.config.h2r_buf_size + u32 - sizeof_hdr) % u32, held)
          else if not (role_is_device held.vdev.role)
          then some (0, held)
          else (get_desc_size debug held.svq >>= λ found.
              some ((found.0 + u32 - sizeof_hdr) % u32, record held { svq = found.1 })))
    some (size_or_error size, release env debug next)

  -- `rpmsg_virtio_get_rx_buffer_size` of a device that is not NULL.
  pub get_rx_buffer_size : Rvdev W V → Option (ℤ × Rvdev W V)
  get_rx_buffer_size r = do
    held ← acquire env debug r
    (size, next) ←
        (if role_is_driver held.vdev.role
          then some ((held.config.r2h_buf_size + u32 - sizeof_hdr) % u32, held)
          else if not (role_is_device held.vdev.role)
          then some (0, held)
          else (get_desc_size debug held.rvq >>= λ found.
              some ((found.0 + u32 - sizeof_hdr) % u32, record held { rvq = found.1 })))
    some (size_or_error size, release env debug next)

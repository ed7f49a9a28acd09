-- ===== src/Transport/Send/Unsent.antt =====
-- A buffer to send in that is released unsent is the next one that is handed out.
use openamp_core.Prelude.{
  ℕ, suc, ◌+◌, ◌-◌, ◌%◌, ◌<◌, ◌≤◌, ◌≡◌, refl, ap, ◌∙◌, Bool, true, false, some, List, [], ◌∷◌, ◌++◌,
  update, update_self, pos, has_flag, u16, u32, arith,
}
use openamp_core.Virtqueue.State.{driver, Ptr}
use openamp_core.Virtio.Device.{get_status, status_driver_ok}
use openamp_core.Transport.Header.{Hdr, held_inc}
use openamp_core.Transport.Header.Counter.{held_by, held_inc_lem}
use openamp_core.Transport.State.{Reclaimed, Rvdev, Env, locate_hdr}
use openamp_core.Transport.Buffers.{tx_buffer_len, get_tx_buffer, release_tx_buffer}
use openamp_core.Transport.Buffers.Recycle.{release_tx_buffer_lem}
use openamp_core.Transport.Send.{
  locked_tx_buffer, wait_round, wait_tx_buffer, get_tx_payload_buffer,
}

module _ {W V : Type 0} (env : Env W V) (debug : Bool) where
  -- For a driver whose platform is ready, with the lock free and nothing else to recycle: a buffer to
  -- send in that its one holder releases is the one that the next call hands out, at the same address
  -- and with the configured length, from 16 to 2^32 - 1, less that of the header, whether that call
  -- waits or not. It is held once, under the same index, and the send queue and the pool are as they
  -- were.
  pub release-get_tx_payload_buffer :
      (fuel : ℕ) (wait : Bool) (idx st : ℕ) (w : V) (txbuf : Ptr) (r : Rvdev W V)
      → r.vdev.role ≡ driver
      → r.rdev.locked ≡ false
      → r.reclaimer ≡ []
      → 16 ≤ txbuf
      → idx < u16
      → (r.hdr (locate_hdr txbuf)).reserved ≡ held_by 1 idx
      → 16 ≤ r.config.h2r_buf_size
      → r.config.h2r_buf_size < u32
      → get_status r.vdev ≡ (pos 0, st, record r.vdev { world = w })
      → has_flag status_driver_ok st ≡ true
      → (s t : Rvdev W V) × (release_tx_buffer env debug r txbuf ≡ some s)
        × (get_tx_payload_buffer env debug (suc fuel) s wait
            ≡ some (some (txbuf, r.config.h2r_buf_size - 16), t))
        × ((t.hdr (locate_hdr txbuf)).reserved ≡ held_by 1 idx)
        × (t.reclaimer ≡ [])
        × (t.svq ≡ r.svq)
        × (t.shpool ≡ r.shpool)
  unfolding tx_buffer_len get_tx_payload_buffer wait_tx_buffer wait_round locked_tx_buffer
      get_tx_buffer
  release-get_tx_payload_buffer fuel wait idx st w txbuf r is_driver free empty low small held long
        big asked ok =
      let p = locate_hdr txbuf in
      let (h, bytes, runs) = release_tx_buffer_lem env debug idx txbuf r free small held in
      let node : Reclaimed = record { buffer = p; idx = idx } in
      let s : Rvdev W V = record r {
        rdev = record r.rdev { locked = false };
        hdr = h;
        payload = bytes;
        reclaimer = node ∷ [];
      } in
      let released : release_tx_buffer env debug r txbuf ≡ some s =
        runs
        ∙ ap (λ (l : List Reclaimed). some (record s { reclaimer = l ++ (node ∷ []) })) empty in
      let counted : Hdr = record (h p) { reserved = held_inc idx } in
      let t : Rvdev W V = record s {
        vdev = record r.vdev { world = w };
        hdr = update h p counted;
        reclaimer = [];
      } in
      let locked : Rvdev W V = record s {
        vdev = record r.vdev { world = w };
        rdev = record r.rdev { locked = true };
      } in
      let len_is : tx_buffer_len env debug r.vdev.role locked idx ≡ some r.config.h2r_buf_size =
        rw is_driver refl in
      let back : p + 16 ≡ txbuf = omega (arith, low) in
      let room : (r.config.h2r_buf_size + u32 - 16) % u32 ≡ r.config.h2r_buf_size - 16 =
        omega (arith, long, big) in
      (
        s,
        t,
        released,
        rw (asked, ok, len_is) λ i. some (some (back i, room i), t),
        ap (λ x. x.reserved) (update_self h p counted)
            ∙ ap held_inc (omega arith)
            ∙ held_inc_lem 0 idx small (omega arith),
        refl,
        refl,
        refl,
      )

-- ===== src/Transport/Buffers/Recycle.antt =====
-- A buffer to send in that is released unsent is the next one that is handed out.

use openamp_core.Prelude.{
  ℕ, ◌%◌, ◌<◌, ◌≡◌, refl, ap, ◌∙◌, Bool, true, false, some, [], ◌∷◌, ◌++◌, update, u16, arith,
}
use openamp_core.Utilities.{Chars}
use openamp_core.Virtqueue.State.{Ptr}
use openamp_core.Transport.Header.{Hdr, held_dec_test, buf_index}
use openamp_core.Transport.Header.Counter.{held_by, held_dec_test_lem}
use openamp_core.Transport.State.{Rvdev, Env, locate_hdr, locate_data}
use openamp_core.Transport.Buffers.{recycled, release_tx_buffer}

module _ {W V : Type 0} (env : Env W V) (debug : Bool) where
  -- The last holder's release puts the buffer and its index at the end of the reclaimer.
  pub release_tx_buffer_lem :
      (idx : ℕ) (txbuf : Ptr) (r : Rvdev W V)
      → r.rdev.locked ≡ false
      → idx < u16
      → (r.hdr (locate_hdr txbuf)).reserved ≡ held_by 1 idx
      → (h : Ptr → Hdr) × (bytes : Ptr → Chars) × (release_tx_buffer env debug r txbuf
          ≡ some (record r {
            rdev = record r.rdev { locked = false };
            hdr = h;
            payload = bytes;
            reclaimer = r.reclaimer ++ (record { buffer = locate_hdr txbuf; idx = idx } ∷ []);
          }))
  unfolding release_tx_buffer buf_index
  release_tx_buffer_lem idx txbuf r free small held =
      let p = locate_hdr txbuf in
      let test : held_dec_test (r.hdr p).reserved ≡ (true, held_by 0 idx) =
        ap held_dec_test held ∙ held_dec_test_lem 0 idx small (omega arith) in
      let index : held_by 0 idx % u16 ≡ idx = omega (arith, small) in
      (
        update (update r.hdr p (record (r.hdr p) { reserved = held_by 0 idx })) p r.clobbered,
        update r.payload (locate_data p) (recycled idx (r.payload (locate_data p))),
        rw (free, test, index) refl,
      )

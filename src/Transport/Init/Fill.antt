-- ===== src/Transport/Init/Fill.antt =====
-- The driver gives its receive queue all its buffers.

use openamp_core.Prelude.{
  ℕ, suc, ◌+◌, ◌-◌, ◌*◌, ◌%◌, ◌<◌, ◌≤◌, ◌≡◌, ◌≢◌, refl, ap, ◌∙◌, Bool, some, List, [], ◌∷◌, pos,
  length, ==_of_ne, update, u16, arith,
}
use openamp_core.Virtqueue.State.{success}
use openamp_core.Virtqueue.Driver.Chains.{Chain}
use openamp_core.Virtqueue.Driver.Valid.{IsValid}
use openamp_core.Virtqueue.Driver.AddResult.{add_buffer-IsValid}
use openamp_core.Transport.Pool.{ShmPool}
use openamp_core.Transport.Pool.Carve.{IsPool, get_buffer_lem}
use openamp_core.Transport.State.{Rvdev, Env, locate_data}
use openamp_core.Transport.Init.{zero_hdr, give_buffer, fill_rvq}

-- The chains in flight when each of some free descriptors has been given a buffer, in order.
abbrev pub posted : List ℕ → List Chain → List Chain
posted [] cs = cs
posted (h ∷ fs) cs = posted fs ((h, []) ∷ cs)

module _ {W V : Type 0} (env : Env W V) (debug : Bool) where
  -- On a valid receive queue of the driver and a pool with a buffer for each free descriptor, the
  -- loop of the initialisation succeeds, in a debug build too. The queue is valid again, no
  -- descriptor is free, and each of them is a chain of its own in flight; as many entries as there
  -- are buffers have been published, and the pool has that many buffers less.
  pub fill_rvq-IsValid :
      (k : ℕ) (fs : List ℕ) (cs : List Chain) (pool : ShmPool) (r : Rvdev W V)
      → IsValid k fs cs r.rvq
      → IsPool pool
      → 0 < r.config.r2h_buf_size
      → length fs * r.config.r2h_buf_size ≤ pool.avail
      → (s : Rvdev W V) × (fill_rvq env debug (length fs) (some pool) r
          ≡ some (
            pos 0,
            some (record pool { avail = pool.avail - length fs * r.config.r2h_buf_size }),
            s,
          ))
        × IsValid k [] (posted fs cs) s.rvq
        × (s.rvq.ring.avail_idx % u16 ≡ (r.rvq.ring.avail_idx + length fs) % u16)
        × (s.config ≡ r.config)
        × (s.svq ≡ r.svq)
  unfolding fill_rvq give_buffer
  fill_rvq-IsValid k [] cs pool r v p bytes room = (
    r,
    λ i. some (pos 0, some (record pool { avail = whole i }), r),
    v,
    ap (λ (t : ℕ). t % u16) (omega arith),
    refl,
    refl,
  )
    where
      whole : pool.avail ≡ pool.avail - 0 * r.config.r2h_buf_size
      whole = omega arith
  fill_rvq-IsValid k (h ∷ fs) cs pool r v p bytes room =
      let size = r.config.r2h_buf_size in
      let buffer = pool.base + pool.size - pool.avail in
      let after : ShmPool = record pool { avail = pool.avail - size } in
      let set : buffer ≢ 0 = omega (arith, p.placed, p.bounded) in
      let (q, runs, valid, _, offered) =
        add_buffer-IsValid debug k h [] fs cs r.rvq (record { buf = buffer; len = size } ∷ []) 0 1
          buffer v refl refl set in
      let next : Rvdev W V = record r {
        hdr = update r.hdr buffer zero_hdr;
        payload = update r.payload (locate_data buffer) (λ i. 0);
        rvq = q;
      } in
      let given : give_buffer env debug buffer r ≡ some (success, next) = rw runs refl in
      let (s, rest, done, index, config, svq) =
        fill_rvq-IsValid k fs ((h, []) ∷ cs) after next valid
          (record { placed = p.placed; bounded = omega (arith, p.bounded) }) bytes
          (omega (arith, room)) in
      (
        s,
        rw (get_buffer_lem size pool bytes fits, ==_of_ne buffer 0 set, given)
            (rest ∙ λ i. some (pos 0, some (record pool { avail = spent i }), s)),
        done,
        index ∙ omega (arith, offered.counted),
        config,
        svq,
      )
    where
      fits : r.config.r2h_buf_size ≤ pool.avail
      fits = omega (arith, room)

      spent :
          pool.avail - r.config.r2h_buf_size - length fs * r.config.r2h_buf_size
          ≡ pool.avail - suc (length fs) * r.config.r2h_buf_size
      spent = omega arith

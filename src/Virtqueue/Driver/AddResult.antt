-- ===== src/Virtqueue/Driver/AddResult.antt =====
-- What `virtqueue_add_buffer` returns: success on a queue with room, and what happens without.
use openamp_core.Prelude.{
  pow-le-u15, slot-lt, ℕ, suc, ◌+◌, ◌%◌, ◌^◌, ◌≤◌, ◌<◌, ◌≡◌, ◌≢◌, refl, ap, sym, subst, Bool, true,
  false, some, List, ◌∷◌, ◌++◌, arith, count-append, update, length, length-append, u16,
}
use openamp_core.Virtqueue.State.{success, Ptr, Buf, Virtqueue}
use openamp_core.Virtqueue.Driver.{add_loop, add_checked, add_buffer}
use openamp_core.Virtqueue.Driver.Chains.{Table, Chain, FreeList-start}
use openamp_core.Virtqueue.Driver.Valid.{IsValid}
use openamp_core.Virtqueue.Driver.Enqueue.{Written, Added, add_loop-Added}
use openamp_core.Virtqueue.Driver.Add.{added_state, add_checked_lem, added_state-IsValid}

-- `q` offers the chain with head `h` to the device, beside all that `vq` offered.
pub record Offered (h : ℕ) (cookie : Ptr) (vq q : Virtqueue) : Type 0 where
  pub slots : q.ring.avail_ring ≡ update vq.ring.avail_ring (vq.ring.avail_idx % vq.nentries) h
  pub counted : q.ring.avail_idx ≡ (vq.ring.avail_idx + 1) % u16
  pub queued : q.queued_cnt ≡ (vq.queued_cnt + 1) % u16
  pub cookie_at : (q.descx h).cookie ≡ cookie
  pub used_same : (q.ring.used_ring ≡ vq.ring.used_ring) × (q.ring.used_idx ≡ vq.ring.used_idx)
  pub cons_same : q.used_cons_idx ≡ vq.used_cons_idx
  pub size_same : q.nentries ≡ vq.nentries

module _ (k h : ℕ) (taken fs : List ℕ) (cs : List Chain) (vq : Virtqueue)
    (v : IsValid k (h ∷ (taken ++ fs)) cs vq) where
  loop_runs :
      (debug : Bool) (bufs : List Buf) (readable needed : ℕ)
      → suc (length taken) ≡ needed
      → length bufs ≡ needed
      → (p : ℕ) × (e : Table) × (add_loop debug vq.shm_io vq.nentries readable needed needed 0 bufs
            vq.desc_head_idx vq.ring.desc
          ≡ some (p, e))
        × Added vq.shm_io readable needed 0 vq.ring.desc (h ∷ taken) fs bufs p e
  loop_runs debug bufs readable needed enough len = rw (← enough) (
      add_loop-Added vq.shm_io readable (suc (length taken)) debug vq.nentries (h ∷ taken) fs bufs 0
        vq.desc_head_idx vq.ring.desc (rw v.size (pow-le-u15 k v.small)) (omega arith)
        (λ a n. ground (arith, v.parts a, count-append a taken fs))
        (λ a. ground (arith, v.parts a, count-append a taken fs)) v.free)

  -- What the body of `virtqueue_add_buffer` computes, whatever `inuse` is.
  checked_runs :
      (debug busy : Bool) (bufs : List Buf) (readable writable : ℕ) (cookie : Ptr)
      → suc (length taken) ≡ readable + writable
      → length bufs ≡ readable + writable
      → cookie ≢ 0
      → (p : ℕ) × (e : Table) × (add_checked debug
            (record vq { inuse = busy })
            bufs
            readable
            writable
            cookie
          ≡ some (record (added_state vq h p e (readable + writable) cookie) { inuse = busy }))
        × Added vq.shm_io readable (readable + writable) 0 vq.ring.desc (h ∷ taken) fs bufs p e
  checked_runs debug busy bufs readable writable cookie enough len marked =
      let (p, e, run, added) = loop_runs debug bufs readable (readable + writable) enough len in
      let (empty, more) =
        FreeList-start vq.nentries e p fs added.rest
          (λ a n. ground (arith, v.parts a, count-append a taken fs)) in
      let small = pow-le-u15 k v.small in
      let sizes = length-append taken fs in
      (
        p,
        e,
        rw (← v.free.0) (
            add_checked_lem debug (record vq { inuse = busy }) bufs readable writable cookie p e
              marked (rw v.free.0 (ground (arith, v.parts h))) (rw v.free.0 v.unused.0) run
              (λ z. empty (ground (arith, v.free_count, v.total, v.size)))
              (λ z. more (ground (arith, v.free_count, v.total, v.size)))
              (slot-lt k vq.nentries vq.ring.avail_idx v.size).1),
        added,
      )

added_state-Offered :
    (vq : Virtqueue) (k h p : ℕ) (e : Table) (needed : ℕ) (cookie : Ptr)
    → vq.nentries ≡ 2 ^ k
    → Offered h cookie vq (record (added_state vq h p e needed cookie) { inuse = false })
added_state-Offered vq k h p e needed cookie size =
    let slot = (slot-lt k vq.nentries vq.ring.avail_idx size).0 in
    record {
      slots = ap (λ (t : ℕ). update vq.ring.avail_ring t h) slot;
      counted = refl;
      queued = refl;
      cookie_at = ground arith;
      used_same = (refl, refl);
      cons_same = refl;
      size_same = refl;
    }

-- The frame of `virtqueue_add_buffer` around its body: the checks, VQUEUE_BUSY and VQUEUE_IDLE.
add_buffer_frame :
    (debug : Bool) (vq q : Virtqueue) (bufs : List Buf) (readable writable : ℕ) (cookie : Ptr)
    → 0 < readable + writable
    → readable + writable ≤ vq.free_cnt
    → vq.inuse ≡ false
    → add_checked debug (record vq { inuse = debug }) bufs readable writable cookie
      ≡ some (record q { inuse = debug })
    → add_buffer debug vq bufs readable writable cookie ≡ some (success, record q { inuse = false })
unfolding add_buffer
add_buffer_frame true vq q bufs readable writable cookie some_needed room idle run =
    ground (arith, run)
add_buffer_frame false vq q bufs readable writable cookie some_needed room idle run = rw run' refl
  where
    run' : add_checked false vq bufs readable writable cookie ≡ some (record q { inuse = false })
    run' =
        subst
          (λ (t : Virtqueue).
            add_checked false t bufs readable writable cookie ≡ some (record q { inuse = false }))
          (λ i. record vq { inuse = sym idle i }) run

module _ (debug : Bool) (k h : ℕ) (taken fs : List ℕ) (cs : List Chain) (vq : Virtqueue)
    (bufs : List Buf) (readable writable : ℕ) (cookie : Ptr) where
  -- On a valid queue with a free chain of at least `readable + writable` descriptors, that many
  -- buffers and a cookie that is not NULL, `virtqueue_add_buffer` succeeds without a fault or a
  -- failed assertion, in a debug build too. The first `readable + writable` descriptors of the free
  -- chain become a chain in flight and hold the buffers, each with its address, length and flags;
  -- the head of the chain is published in the next slot of the available ring, and nothing else of
  -- that ring and nothing of the used ring changes. The queue is valid again.
  pub add_buffer-IsValid :
      IsValid k (h ∷ (taken ++ fs)) cs vq
      → suc (length taken) ≡ readable + writable
      → length bufs ≡ readable + writable
      → cookie ≢ 0
      → (q : Virtqueue) × (add_buffer debug vq bufs readable writable cookie ≡ some (success, q))
        × IsValid k fs ((h, taken) ∷ cs) q
        × Written vq.shm_io readable (readable + writable) 0 q.ring.desc (h ∷ taken) bufs
        × Offered h cookie vq q
  add_buffer-IsValid v enough len marked =
      let (p, e, run, added) =
        checked_runs k h taken fs cs vq v debug debug bufs readable writable cookie enough len
          marked in
      (
        record (added_state vq h p e (readable + writable) cookie) { inuse = false },
        add_buffer_frame debug vq (added_state vq h p e (readable + writable) cookie) bufs readable
            writable cookie (omega arith) (omega (arith, v.free_count, length-append taken fs))
            v.idle run,
        added_state-IsValid k h taken fs cs vq bufs readable (readable + writable) cookie p e v
            (sym enough) marked added,
        added.written,
        added_state-Offered vq k h p e (readable + writable) cookie v.size,
      )

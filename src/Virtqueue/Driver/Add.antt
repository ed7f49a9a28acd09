-- ===== src/Virtqueue/Driver/Add.antt =====
-- `virtqueue_add_buffer` on a valid queue.
use openamp_core.Prelude.{
  pow-le-u15, ℕ, suc, ◌+◌, ◌-◌, ◌%◌, ◌≤◌, ◌<◌, ◌≡◌, ◌≢◌, refl, Bool, true, false, some, List, [],
  ◌∷◌, ◌++◌, ◌==◌, arith, bit_and, has_flag, count, count-append, update, All, All-split, length,
  length-append, u16,
}
use openamp_core.Vring.{desc_f_indirect, desc_chain_end, sub16}
use openamp_core.Virtqueue.State.{Ptr, Buf, DescExtra, Virtqueue}
use openamp_core.Virtqueue.Driver.{add_loop, ring_update_avail, add_checked}
use openamp_core.Virtqueue.Driver.Chains.{Table, IsChain, Chain, indices, FreeList-frame}
use openamp_core.Virtqueue.Driver.Valid.{InFlight, IsValid, flight_frame, All-mono}
use openamp_core.Virtqueue.Driver.Enqueue.{Written, Added, Written-IsChain}

-- The queue after a chain with head `h` was added: `p` is the new head of the free chain and `e`
-- the descriptor table.
abbrev pub added_state : Virtqueue → (h p : ℕ) → Table → (needed : ℕ) → Ptr → Virtqueue
added_state vq h p e needed cookie = record vq {
  descx = update vq.descx h (record { cookie = cookie; ndescs = needed % u16 });
  ring = record vq.ring {
    desc = e;
    avail_ring = update vq.ring.avail_ring (bit_and vq.ring.avail_idx (vq.nentries - 1)) h;
    avail_idx = (vq.ring.avail_idx + 1) % u16;
  };
  desc_head_idx = p;
  free_cnt = sub16 vq.free_cnt (needed % u16);
  queued_cnt = (vq.queued_cnt + 1) % u16;
}

module _ (debug : Bool) (vq : Virtqueue) (bufs : List Buf) (readable writable : ℕ) (cookie : Ptr)
    (p : ℕ) (e : Table) where
  pub add_checked_lem :
      cookie ≢ 0
      → vq.desc_head_idx < vq.nentries
      → (vq.descx vq.desc_head_idx).cookie ≡ 0
      → add_loop debug vq.shm_io vq.nentries readable
          (readable + writable)
          (readable + writable)
          0
          bufs
          vq.desc_head_idx
          vq.ring.desc
        ≡ some (p, e)
      → ((sub16 vq.free_cnt ((readable + writable) % u16) == 0) ≡ true → p ≡ desc_chain_end)
      → ((sub16 vq.free_cnt ((readable + writable) % u16) == 0) ≡ false → p < vq.nentries)
      → bit_and vq.ring.avail_idx (vq.nentries - 1) < vq.nentries
      → add_checked debug vq bufs readable writable cookie
        ≡ some (added_state vq vq.desc_head_idx p e (readable + writable) cookie)
  unfolding add_checked ring_update_avail
  add_checked_lem marked inside clear run empty more slot = rw run (ground arith)

module _ (k h : ℕ) (taken fs : List ℕ) (cs : List Chain) (vq : Virtqueue) (bufs : List Buf)
    (readable needed : ℕ) (cookie : Ptr) (p : ℕ) (e : Table)
    (v : IsValid k (h ∷ (taken ++ fs)) cs vq) (enough : needed ≡ suc (length taken))
    (marked : cookie ≢ 0)
    (added : Added vq.shm_io readable needed 0 vq.ring.desc (h ∷ taken) fs bufs p e) where
  -- Each descriptor stands once, in one of the three parts.
  apart : (x : ℕ) → count x (h ∷ taken) + count x fs + count x (indices cs) ≤ 1
  apart x = ground (arith, v.parts x, count-append x taken fs)

  extra : ℕ → DescExtra
  extra = update vq.descx h (record { cookie = cookie; ndescs = needed % u16 })

  chain_length : needed + length fs + length (indices cs) ≡ vq.nentries
  chain_length = omega (arith, v.total, length-append taken fs)

  bound : vq.nentries ≤ 32768
  bound = rw v.size (pow-le-u15 k v.small)

  unmarked :
      (xs : List ℕ)
      → ((x : ℕ) → count x xs ≢ 0 → x ≢ h)
      → All (λ x. (vq.descx x).cookie ≡ 0) xs
      → All (λ x. (extra x).cookie ≡ 0) xs
  unfolding extra
  unmarked xs ne =
      All-mono (λ x. (vq.descx x).cookie ≡ 0) (λ x. (extra x).cookie ≡ 0) xs
        (λ x n z. ground (arith, ne x))

  flags_direct :
      (bs : List Buf)
      → Written vq.shm_io readable needed 0 e (h ∷ taken) bs
      → has_flag desc_f_indirect (e h).flags ≡ false
  flags_direct [] w = absurd w
  flags_direct (b ∷ bs) w = rw (w.2) (ground arith)

  added-IsChain :
      (bs : List Buf) → Written vq.shm_io readable needed 0 e (h ∷ taken) bs → IsChain e h taken
  added-IsChain [] w = absurd w
  added-IsChain (b ∷ bs) w =
      Written-IsChain vq.shm_io readable needed e h taken fs b bs 0 (omega arith) w (
        FreeList-frame vq.ring.desc e h (h ∷ (taken ++ fs)) (λ a n. added.next_same a)
          (refl, v.free.1))

  new_chain : InFlight e extra (h, taken)
  unfolding extra
  new_chain = record {
    chain = added-IsChain bufs added.written;
    counted = ground (arith, bound, chain_length);
    marked = ground arith;
    unmarked =
        unmarked taken (λ x n q. ground (arith, apart x))
          (All-split (λ x. (vq.descx x).cookie ≡ 0) taken fs v.unused.1).0;
    direct = flags_direct bufs added.written;
  }

  pub added_state-IsValid :
      IsValid k fs ((h, taken) ∷ cs) (record (added_state vq h p e needed cookie) { inuse = false })
  unfolding extra
  added_state-IsValid = record {
    size = v.size;
    small = v.small;
    idle = refl;
    free = added.rest;
    free_count = omega (arith, v.free_count, bound, chain_length, length-append taken fs);
    unused =
        unmarked fs (λ x n q. ground (arith, apart x))
          (All-split (λ x. (vq.descx x).cookie ≡ 0) taken fs v.unused.1).1;
    flight = (
      new_chain,
      flight_frame cs (λ a n. added.outside a (omega (arith, apart a)))
          (λ a n. ground (arith, apart a)) v.flight,
    );
    parts =
        λ x. ground (arith, v.parts x, count-append x taken fs, count-append x taken (indices cs));
    total = omega (arith, chain_length, length-append taken (indices cs));
  }

-- ===== src/Virtqueue/Driver/Get.antt =====
-- `virtqueue_get_buffer` on a valid queue: a chain in flight comes back to the free chain.
use openamp_core.Prelude.{
  pow-le-u15, slot-lt, ℕ, zero, suc, ◌+◌, ◌-◌, ◌%◌, ◌≤◌, ◌<◌, ◌≡◌, ◌≢◌, refl, ap, ◌∙◌, Bool, true,
  false, none, some, ◌==◌, List, [], ◌∷◌, ◌++◌, ltb, arith, if◌then◌else◌, count, count-append,
  update, All, All-middle, All-append, length, length-append, u16,
}
use openamp_core.Vring.{desc_chain_end, sub16}
use openamp_core.Virtqueue.State.{DescExtra, Virtqueue}
use openamp_core.Virtqueue.Driver.{walk_chain, ring_free_chain, get_buffer}
use openamp_core.Virtqueue.Driver.Chains.{
  Table, IsChain, last, Chain, indices, count-last, count-indices_append, length-indices_append,
  FreeList-join, FreeList-start,
}
use openamp_core.Virtqueue.Driver.Valid.{InFlight, IsValid, flight_frame, All-mono}

-- The loop of `vq_ring_free_chain` walks the whole chain, and counts it.
walk_chain_lem :
    (debug : Bool) (n : ℕ) (d : Table) (fuel x : ℕ) (xs : List ℕ) (ndescs : ℕ)
    → IsChain d x xs
    → length xs < fuel
    → ((a : ℕ) → count a (x ∷ xs) ≢ 0 → a < n)
    → length xs ≤ ndescs
    → ndescs < u16
    → walk_chain debug n d fuel x ndescs ≡ some (last x xs, ndescs - length xs)
unfolding walk_chain
walk_chain_lem debug n d zero x xs ndescs c fuel below some_left small = absurd (omega arith)
walk_chain_lem debug n d (suc fuel) x [] ndescs c enough below some_left small =
    rw c (ap (λ (t : ℕ). some (x, t)) (omega arith))
walk_chain_lem debug n d (suc fuel) x (y ∷ ys) ndescs c enough below some_left small =
    let rest =
      walk_chain_lem debug n d fuel y ys (sub16 ndescs 1) c.2 (omega arith)
        (λ a h. below a (omega arith)) (omega arith) (omega arith) in
    let inside : y < n = below y (ground arith) in rw (c.0, c.1, rest) (ground arith)

abbrev freed_state : Virtqueue → (h l : ℕ) → Virtqueue
freed_state vq h l = record vq {
  free_cnt = (vq.free_cnt + (vq.descx h).ndescs) % u16;
  descx = update vq.descx h (record (vq.descx h) { ndescs = 0 });
  ring = record vq.ring {
    desc = update vq.ring.desc l (record (vq.ring.desc l) { next = vq.desc_head_idx });
  };
  desc_head_idx = h;
}

-- The queue after the chain with head `h` and last descriptor `l` was handed back.
abbrev got_state : Virtqueue → (h l : ℕ) → Virtqueue
got_state vq h l =
    let freed = freed_state vq h l in
    record freed {
      used_cons_idx = (vq.used_cons_idx + 1) % u16;
      descx = update freed.descx h (record (freed.descx h) { cookie = 0 });
    }

module _ (k h : ℕ) (xs fs : List ℕ) (cs ds : List Chain) (vq : Virtqueue)
    (v : IsValid k fs (cs ++ ((h, xs) ∷ ds)) vq) where
  chain : InFlight vq.ring.desc vq.descx (h, xs)
  chain = (All-middle (InFlight vq.ring.desc vq.descx) cs (h, xs) ds v.flight).0

  -- Each descriptor stands once: in the chain, on the free chain or in another chain.
  apart :
      (x : ℕ)
      → count x (h ∷ xs) + count x fs + count x (indices (cs ++ ds))
        ≡ (if ltb x vq.nentries then 1 else 0)
  apart x = ground (
    arith,
    v.parts x,
    count-indices_append x cs ((h, xs) ∷ ds),
    count-indices_append x cs ds,
    count-append x xs (indices ds),
  )

  sizes : suc (length xs) + length fs + length (indices (cs ++ ds)) ≡ vq.nentries
  sizes = omega (
    arith,
    v.total,
    length-indices_append cs ((h, xs) ∷ ds),
    length-indices_append cs ds,
    length-append xs (indices ds),
  )

  bound : vq.nentries ≤ 32768
  bound = rw v.size (pow-le-u15 k v.small)

  free_chain_lem :
      (debug busy : Bool) (cons : ℕ)
      → ring_free_chain debug (record vq { inuse = busy; used_cons_idx = cons }) h
        ≡ some (record (freed_state vq h (last h xs)) { inuse = busy; used_cons_idx = cons })
  unfolding ring_free_chain
  free_chain_lem debug busy cons = rw (chain.direct, walked) (ground (arith, inside, empty))
    where
      inside : h < vq.nentries
      inside = ground (arith, apart h)

      walked :
          walk_chain debug vq.nentries vq.ring.desc vq.nentries h (sub16 (vq.descx h).ndescs 1)
          ≡ some (last h xs, 0)
      walked =
          walk_chain_lem debug vq.nentries vq.ring.desc vq.nentries h xs
            (sub16 (vq.descx h).ndescs 1) chain.chain (omega (arith, sizes))
            (λ a n. ground (arith, apart a)) (omega (arith, chain.counted, bound, sizes))
            (omega arith)
          ∙ ap (λ (t : ℕ). some (last h xs, t)) (omega (arith, chain.counted, bound, sizes))

      empty : vq.free_cnt ≡ 0 → vq.desc_head_idx ≡ desc_chain_end
      empty z =
          (FreeList-start vq.nentries vq.ring.desc vq.desc_head_idx fs v.free
              (λ a n. ground (arith, apart a))).0
            (omega (arith, v.free_count))

  once :
      (a : ℕ)
      → count a (h ∷ (xs ++ fs)) + count a (indices (cs ++ ds))
        ≡ (if ltb a vq.nentries then 1 else 0)
  once a = omega (arith, apart a, count-append a xs fs)

  got : ℕ → DescExtra
  got = (got_state vq h (last h xs)).descx

  clear_unmarked :
      (ys : List ℕ) → All (λ x. (vq.descx x).cookie ≡ 0) ys → All (λ x. (got x).cookie ≡ 0) ys
  unfolding got
  clear_unmarked ys =
      All-mono (λ x. (vq.descx x).cookie ≡ 0) (λ x. (got x).cookie ≡ 0) ys (λ x n z. ground arith)

  got_state-IsValid :
      IsValid k (h ∷ (xs ++ fs)) (cs ++ ds) (record (got_state vq h (last h xs)) { inuse = false })
  unfolding got
  got_state-IsValid = record {
    size = v.size;
    small = v.small;
    idle = refl;
    free =
        FreeList-join vq.ring.desc (got_state vq h (last h xs)).ring.desc vq.desc_head_idx h xs fs
          (λ a. ground (arith, once a)) (ground arith) (λ a ne. ground arith) chain.chain v.free;
    free_count = omega (arith, v.free_count, chain.counted, bound, sizes, length-append xs fs);
    unused = (
      ground arith,
      All-append (λ x. (got x).cookie ≡ 0) xs fs (clear_unmarked xs chain.unmarked)
          (clear_unmarked fs v.unused),
    );
    flight =
        flight_frame (cs ++ ds) (λ a n. ground (arith, apart a, count-last h xs))
          (λ a n. ground (arith, apart a))
          (All-middle (InFlight vq.ring.desc vq.descx) cs (h, xs) ds v.flight).1;
    parts = once;
    total = omega (arith, sizes, length-append xs fs);
  }

  get_runs :
      (debug : Bool)
      → vq.used_cons_idx ≢ vq.ring.used_idx
      → (vq.ring.used_ring (vq.used_cons_idx % vq.nentries)).id % u16 ≡ h
      → get_buffer debug vq
        ≡ some (
          some (record {
            cookie = (vq.descx h).cookie;
            len = (vq.ring.used_ring (vq.used_cons_idx % vq.nentries)).len;
            idx = vq.used_cons_idx % vq.nentries;
          }),
          record (got_state vq h (last h xs)) { inuse = false },
        )
  unfolding get_buffer
  get_runs true pending named =
      let (masked, inside) = slot-lt k vq.nentries vq.used_cons_idx v.size in
      let freed = free_chain_lem true true ((vq.used_cons_idx + 1) % u16) in
      rw (v.idle, masked, named, freed) (ground (arith, inside))
  get_runs false pending named =
      let (masked, inside) = slot-lt k vq.nentries vq.used_cons_idx v.size in
      let freed = free_chain_lem false vq.inuse ((vq.used_cons_idx + 1) % u16) in
      rw (masked, named, freed) (ground (arith, inside))

module _ (debug : Bool) (k h : ℕ) (xs fs : List ℕ) (cs ds : List Chain) (vq : Virtqueue) where
  -- On a valid queue whose next used entry names the head `h` of a chain in flight,
  -- `virtqueue_get_buffer` returns the cookie that was given with the chain, the length that the
  -- device wrote and the slot of the entry, without a fault or a failed assertion. All descriptors
  -- of the chain go back to the front of the free chain, the used entry is consumed, the other
  -- chains stay in flight, and the queue is valid again.
  pub get_buffer-IsValid :
      IsValid k fs (cs ++ ((h, xs) ∷ ds)) vq
      → vq.used_cons_idx ≢ vq.ring.used_idx
      → (vq.ring.used_ring (vq.used_cons_idx % vq.nentries)).id % u16 ≡ h
      → (q : Virtqueue) × (get_buffer debug vq
          ≡ some (
            some (record {
              cookie = (vq.descx h).cookie;
              len = (vq.ring.used_ring (vq.used_cons_idx % vq.nentries)).len;
              idx = vq.used_cons_idx % vq.nentries;
            }),
            q,
          ))
        × IsValid k (h ∷ (xs ++ fs)) (cs ++ ds) q
        × (q.used_cons_idx ≡ (vq.used_cons_idx + 1) % u16)
        × (q.ring ≡ record vq.ring { desc = q.ring.desc })
  get_buffer-IsValid v pending named = (
    record (got_state vq h (last h xs)) { inuse = false },
    get_runs k h xs fs cs ds vq v debug pending named,
    got_state-IsValid k h xs fs cs ds vq v,
    refl,
    refl,
  )

-- With no used entry that it has not seen, the driver gets nothing.
pub get_buffer-none :
    (debug : Bool) (vq : Virtqueue)
    → vq.used_cons_idx ≡ vq.ring.used_idx
    → get_buffer debug vq ≡ some (none, vq)
unfolding get_buffer
get_buffer-none debug vq seen =
    let same : (vq.used_cons_idx == vq.ring.used_idx) ≡ true = ground (arith, seen) in rw same refl

-- ===== src/Virtqueue/Cycle.antt =====
-- Driver and device on one shared ring: a buffer goes over to the device and comes back.
use openamp_core.Prelude.{
  ℕ, suc, ◌+◌, ◌%◌, ◌^◌, ◌≤◌, ◌<◌, ◌≡◌, ◌≢◌, refl, ap, ap₂, sym, subst, ◌∙◌, Bool, some, List, [],
  ◌∷◌, ◌++◌, arith, length, u16, u32, u16-mod-pow, pow-pos, pow-le-u15,
}
use openamp_core.Vring.{Desc, UsedElem, Vring}
use openamp_core.Virtqueue.State.{success, Ptr, Buf, Io, Virtqueue}
use openamp_core.Virtqueue.Pending.{pending, pending-update}
use openamp_core.Virtqueue.Driver.{add_buffer, get_buffer}
use openamp_core.Virtqueue.Driver.Chains.{Chain}
use openamp_core.Virtqueue.Driver.Valid.{IsValid}
use openamp_core.Virtqueue.Driver.Enqueue.{Written}
use openamp_core.Virtqueue.Driver.AddResult.{Offered, add_buffer-IsValid}
use openamp_core.Virtqueue.Driver.Get.{get_buffer-IsValid}
use openamp_core.Virtqueue.Device.{get_available_buffer, add_consumed_buffer}
use openamp_core.Virtqueue.Device.Fifo.{
  IsDevice, Waits, UsedWaits, get_available_buffer_lem, add_consumed_buffer_lem,
}

-- The control block `vq` looking at the shared memory `ring`.
abbrev pub share : Vring → Virtqueue → Virtqueue
share ring vq = record vq { ring = ring }

-- The driver's invariant does not read the rings.
share-IsValid :
    (k : ℕ) (fs : List ℕ) (cs : List Chain) (vq : Virtqueue) (ring : Vring)
    → ring.desc ≡ vq.ring.desc
    → IsValid k fs cs vq
    → IsValid k fs cs (share ring vq)
share-IsValid k fs cs vq ring same v =
    subst (λ (t : ℕ → Desc). IsValid k fs cs (share (record ring { desc = t }) vq)) (sym same)
      (record {
        size = v.size;
        small = v.small;
        idle = v.idle;
        free = v.free;
        free_count = v.free_count;
        unused = v.unused;
        flight = v.flight;
        parts = v.parts;
        total = v.total;
      })

-- What the driver offers waits for the device behind what waited before.
pub Offered-Waits :
    (k h m : ℕ) (cookie : Ptr) (heads : List ℕ) (vq q dv : Virtqueue)
    → vq.nentries ≡ 2 ^ k
    → k ≤ 15
    → m < 2 ^ k
    → Offered h cookie vq q
    → Waits k (share vq.ring dv) heads m
    → Waits k (share q.ring dv) (heads ++ (h ∷ [])) (suc m)
Offered-Waits k h m cookie heads vq q dv size small room offer w = record {
  index = w.index;
  room = room;
  apart = omega (arith, offer.counted, w.apart);
  heads_are =
      ap (λ (t : ℕ → ℕ). pending k t dv.available_idx (suc m)) offer.slots
      ∙ pending-update k vq.ring.avail_ring dv.available_idx m (vq.ring.avail_idx % vq.nentries) h
          room at_slot
      ∙ ap (λ (t : List ℕ). t ++ (h ∷ [])) w.heads_are;
}
  where
    at_slot : vq.ring.avail_idx % vq.nentries ≡ (dv.available_idx + m) % 2 ^ k
    at_slot =
        ap (λ (t : ℕ). vq.ring.avail_idx % t) size
        ∙ ap (λ (t : ℕ). t % 2 ^ k) w.apart
        ∙ u16-mod-pow k (dv.available_idx + m) (omega arith)

-- The first buffer is in the head of the chain.
head-Written :
    (io : Io) (readable needed : ℕ) (e : ℕ → Desc) (h : ℕ) (taken : List ℕ) (b : Buf)
    (bs : List Buf)
    → Written io readable needed 0 e (h ∷ taken) (b ∷ bs)
    → ((e h).addr ≡ io.virt_to_phys b.buf) × ((e h).len ≡ b.len % u32)
head-Written io readable needed e h taken b bs w = (w.0, w.1)

-- The device's half of a round, and the driver's answer: from a queue `q` that has just offered the
-- chain with head `h` on an otherwise quiet ring.
module _ (debug : Bool) (k h : ℕ) (taken fs : List ℕ) (cs : List Chain) (vq q dv : Virtqueue)
    (cookie : Ptr) (len : ℕ) (v : IsValid k fs ((h, taken) ∷ cs) q) (offer : Offered h cookie vq q)
    (size : vq.nentries ≡ 2 ^ k) (inside : h < 2 ^ k) (d : IsDevice k dv)
    (u : UsedWaits k vq.used_cons_idx vq.ring [] 0) where
  quiet : (ring : Vring) → ring ≡ q.ring → UsedWaits k vq.used_cons_idx ring [] 0
  quiet ring same = record {
    index = u.index;
    room = u.room;
    apart = ap (λ (t : Vring). t.used_idx) same ∙ offer.used_same.1 ∙ u.apart;
    elems_are = refl;
  }

  answered :
      (dv2 : Virtqueue)
      → dv2.ring.desc ≡ q.ring.desc
      → UsedWaits k vq.used_cons_idx dv2.ring (record { id = h; len = len } ∷ []) 1
      → (q2 : Virtqueue) × (get_buffer debug (share dv2.ring q)
          ≡ some (some (record { cookie = cookie; len = len; idx = vq.used_cons_idx % 2 ^ k }), q2))
        × IsValid k (h ∷ (taken ++ fs)) cs q2
  answered dv2 same w =
      let elem : dv2.ring.used_ring (vq.used_cons_idx % 2 ^ k) ≡ record { id = h; len = len } =
        cc (w.elems_are) in
      let slot : q.used_cons_idx % q.nentries ≡ vq.used_cons_idx % 2 ^ k =
        ap₂ ◌%◌ offer.cons_same (offer.size_same ∙ size) in
      let at_slot = ap dv2.ring.used_ring slot ∙ elem in
      let (q2, got, v2, cons, rings) =
        get_buffer-IsValid debug k h taken fs [] cs (share dv2.ring q)
          (share-IsValid k fs ((h, taken) ∷ cs) q dv2.ring same v)
          (λ e. omega (arith, e, w.apart, w.index, offer.cons_same))
          (ap (λ (t : UsedElem). t.id % u16) at_slot ∙ omega (arith, pow-le-u15 k v.small)) in
      (
        q2,
        got ∙ (λ i. some (
          some (record { cookie = offer.cookie_at i; len = (at_slot i).len; idx = slot i }),
          q2,
        )),
        v2,
      )

  consumed :
      (dv1 : Virtqueue)
      → IsDevice k dv1
      → dv1.ring ≡ q.ring
      → (dv2 q2 : Virtqueue) × (add_consumed_buffer debug dv1 h len ≡ some (success, dv2))
        × (get_buffer debug (share dv2.ring q)
            ≡ some
                (some (record { cookie = cookie; len = len; idx = vq.used_cons_idx % 2 ^ k }), q2))
        × IsValid k (h ∷ (taken ++ fs)) cs q2
  consumed dv1 d1 same =
      let (dv2, done, d2, w, queued, rings) =
        add_consumed_buffer_lem debug k vq.used_cons_idx h len 0 [] dv1 d1 (quiet dv1.ring same)
          (pow-pos k) (rw d1.size inside) in
      let (q2, got, v2) =
        answered dv2 (ap (λ (t : Vring). t.desc) rings ∙ ap (λ (t : Vring). t.desc) same) w in
      (dv2, q2, done, got, v2)

module _ (debug : Bool) (k h : ℕ) (taken fs : List ℕ) (cs : List Chain) (vq dv : Virtqueue)
    (b : Buf) (bs : List Buf) (readable writable : ℕ) (cookie : Ptr) (len : ℕ) where
  -- One message, on a valid driver's queue with room and a device that shares its ring, where no
  -- head waits for the device and no used entry for the driver. The driver adds the buffers, the
  -- device takes what is available and gets the first buffer, at its own address if its I/O region
  -- translates back what the driver's translated, with its length and the head of the chain. When
  -- the device hands the head back with a length, the driver gets its cookie and that length, and
  -- all descriptors are free again. No step faults, in a debug build either.
  pub add-take-consume-get :
      IsValid k (h ∷ (taken ++ fs)) cs vq
      → suc (length taken) ≡ readable + writable
      → suc (length bs) ≡ readable + writable
      → cookie ≢ 0
      → IsDevice k dv
      → Waits k (share vq.ring dv) [] 0
      → UsedWaits k vq.used_cons_idx vq.ring [] 0
      → dv.shm_io.phys_to_virt (vq.shm_io.virt_to_phys b.buf) ≡ b.buf
      → (q dv1 dv2 q2 : Virtqueue) × (add_buffer debug vq (b ∷ bs) readable writable cookie
          ≡ some (success, q))
        × (get_available_buffer debug (share q.ring dv)
            ≡ some (some (record { buffer = b.buf; avail_idx = h; len = b.len % u32 }), dv1))
        × (add_consumed_buffer debug dv1 h len ≡ some (success, dv2))
        × (get_buffer debug (share dv2.ring q)
            ≡ some
                (some (record { cookie = cookie; len = len; idx = vq.used_cons_idx % 2 ^ k }), q2))
        × IsValid k (h ∷ (taken ++ fs)) cs q2
  add-take-consume-get v enough bufs_len marked d w u back =
      let (q, added, v1, written, offer) =
        add_buffer-IsValid debug k h taken fs cs vq (b ∷ bs) readable writable cookie v enough
          bufs_len marked in
      let inside : h < 2 ^ k = rw (← v.size) (ground (arith, v.parts h)) in
      let (addr, length_at) =
        head-Written vq.shm_io readable (readable + writable) q.ring.desc h taken b bs written in
      let (dv1, took, d1, w1, same) =
        get_available_buffer_lem debug k h 0 [] (share q.ring dv)
          (record { size = d.size; small = d.small; idle = d.idle })
          (Offered-Waits k h 0 cookie [] vq q dv v.size v.small (pow-pos k) offer w)
          (rw d.size inside) in
      let (dv2, q2, done, got, v2) =
        consumed debug k h taken fs cs vq q dv cookie len v1 offer v.size inside d u dv1 d1 same in
      (
        q,
        dv1,
        dv2,
        q2,
        added,
        took ∙ (λ i. some (
          some (record {
            buffer = (ap dv.shm_io.phys_to_virt addr ∙ back) i;
            avail_idx = h;
            len = length_at i;
          }),
          dv1,
        )),
        done,
        got,
        v2,
      )

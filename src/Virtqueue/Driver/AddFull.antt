-- ===== src/Virtqueue/Driver/AddFull.antt =====
-- `virtqueue_add_buffer` on a queue with too few free descriptors.
use openamp_core.Prelude.{
  pow-le-u15, ℕ, zero, suc, ◌+◌, ◌%◌, ◌≤◌, ◌<◌, ◌≡◌, refl, true, false, none, some, List, [], ◌∷◌,
  arith, count, update, length, u32,
}
use openamp_core.Vring.{desc_chain_end}
use openamp_core.Virtqueue.State.{error_vring_full, Ptr, Buf, Io, Virtqueue}
use openamp_core.Virtqueue.Driver.{desc_flags, add_loop, add_checked, add_buffer}
use openamp_core.Virtqueue.Driver.Chains.{Table, FreeList, Chain, FreeList-frame}
use openamp_core.Virtqueue.Driver.Valid.{IsValid}

-- The loop of a release build runs off the end of a free chain that is too short.
add_loop_short :
    (io : Io) (n readable needed rounds : ℕ) (fs : List ℕ) (bufs : List Buf) (i idx : ℕ) (d : Table)
    → n ≤ desc_chain_end
    → length fs < rounds
    → FreeList d idx fs
    → ((a : ℕ) → count a fs ≤ 1)
    → add_loop false io n readable needed rounds i bufs idx d ≡ none
unfolding add_loop
add_loop_short io n readable needed zero fs bufs i idx d small short f once = absurd (omega arith)
add_loop_short io n readable needed (suc rounds) fs [] i idx d small short f once = refl
add_loop_short io n readable needed (suc rounds) [] (b ∷ bufs) i idx d small short f once =
    ground arith
add_loop_short io n readable needed (suc rounds) (x ∷ xs) (b ∷ bufs) i idx d small short f once =
    rw
      (add_loop_short io n readable needed rounds xs bufs (i + 1) (d idx).next d' small
        (omega arith) (FreeList-frame d d' (d idx).next xs (λ a h. ground arith) (rw (f.0) f.1))
        (λ a. omega (arith, once a)))
      (ground arith)
  where
    d' : Table
    d' = update d idx (record {
      addr = io.virt_to_phys b.buf;
      len = b.len % u32;
      flags = desc_flags i readable needed;
      next = (d idx).next;
    })

-- A request for more descriptors than are free on a valid queue: a debug build returns
-- ERROR_VRING_FULL and changes nothing, but a release build, which checks nothing, runs off the end
-- of the free chain and accesses the descriptor table out of bounds.
pub add_buffer_full :
    (k : ℕ) (fs : List ℕ) (cs : List Chain) (vq : Virtqueue) (bufs : List Buf)
    (readable writable : ℕ) (cookie : Ptr)
    → IsValid k fs cs vq
    → length fs < readable + writable
    → (add_buffer true vq bufs readable writable cookie ≡ some (error_vring_full, vq))
      × (add_buffer false vq bufs readable writable cookie ≡ none)
unfolding add_buffer add_checked
add_buffer_full k fs cs vq bufs readable writable cookie v short = (
  ground arith,
  rw
      (add_loop_short vq.shm_io vq.nentries readable (readable + writable) (readable + writable) fs
        bufs 0 vq.desc_head_idx vq.ring.desc (rw v.size (pow-le-u15 k v.small)) short v.free
        (λ a. ground (arith, v.parts a)))
      (ground arith),
)

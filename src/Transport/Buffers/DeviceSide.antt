-- ===== src/Transport/Buffers/DeviceSide.antt =====
-- The receive queue on the device's side: a buffer is taken, and returned to the driver.
use native.Mathlib.Nat.{mod-eq_of_lt}
use openamp_core.Prelude.{
  ℕ, suc, ◌+◌, ◌%◌, ◌^◌, ◌<◌, ◌≤◌, ◌≡◌, ◌≢◌, ◌∙◌, refl, ap, Bool, false, none, some, List, [], ◌∷◌,
  ◌++◌, ==_of_ne, u16, pow-le-u15, All, arith,
}
use openamp_core.Vring.{UsedElem}
use openamp_core.Virtqueue.State.{device, success, Ptr, Virtqueue}
use openamp_core.Virtqueue.Device.Fifo.{
  IsDevice, Waits, UsedWaits, get_available_buffer_lem, add_consumed_buffer_lem,
}
use openamp_core.Virtqueue.Device.Frame.{
  get_available_buffer_frame, add_consumed_buffer_frame, get_available_buffer-none,
  get_buffer_length_lem,
}
use openamp_core.Rpmsg.Endpoint.{Device}
use openamp_core.Transport.Header.{buf_index}
use openamp_core.Transport.State.{Rvdev, Env}
use openamp_core.Transport.Buffers.{return_buffer, get_rx_buffer, release_rx_buffer_nolock}

-- The device's side of the receive queue between two messages: `heads` wait, in order, their
-- buffers are in memory that the device can see, and `elems` are the used entries that the driver has not seen.
pub record Ready {W V : Type 0} (k cons m n : ℕ) (heads : List ℕ) (elems : List UsedElem)
    (r : Rvdev W V) : Type 0 where
  pub role : r.vdev.role ≡ device
  pub unlocked : r.rdev.locked ≡ false
  pub queue : IsDevice k r.rvq
  pub waits : Waits k r.rvq heads m
  pub used : UsedWaits k cons r.rvq.ring elems n
  pub room : n + m ≤ 2 ^ k
  pub inside : All (λ h. h < r.rvq.nentries) heads
  pub mapped : All (λ h. r.rvq.shm_io.phys_to_virt (r.rvq.ring.desc h).addr ≢ 0) heads

module _ {W V : Type 0} (env : Env W V) (debug : Bool) where
  -- `s` is `r` with the buffer of head `h` returned to the driver, which has not seen `elems` yet.
  pub record Returned (k cons n h : ℕ) (elems : List UsedElem) (r s : Rvdev W V) : Type 0 where
    pub role_same : s.vdev.role ≡ r.vdev.role
    pub queue : IsDevice k s.rvq
    pub used :
        UsedWaits k cons s.rvq.ring
          (elems ++ (record { id = h; len = (r.rvq.ring.desc h).len } ∷ []))
          (suc n)
    pub place : s.rvq.available_idx ≡ r.rvq.available_idx
    pub io : s.rvq.shm_io ≡ r.rvq.shm_io
    pub size : s.rvq.nentries ≡ r.rvq.nentries
    pub ring :
        s.rvq.ring
        ≡ record r.rvq.ring { used_ring = s.rvq.ring.used_ring; used_idx = s.rvq.ring.used_idx }

  pub release_lem :
      (k cons n h : ℕ) (elems : List UsedElem) (r : Rvdev W V) (hdr : Ptr)
      → r.vdev.role ≡ device
      → IsDevice k r.rvq
      → UsedWaits k cons r.rvq.ring elems n
      → n < 2 ^ k
      → h < r.rvq.nentries
      → (r.hdr hdr).reserved ≡ h
      → (s : Rvdev W V) × (release_rx_buffer_nolock env debug r hdr ≡ some s)
        × Returned k cons n h elems r s
  unfolding release_rx_buffer_nolock return_buffer buf_index
  release_lem k cons n h elems r hdr role q used room inside at =
      let small : h < u16 = omega (arith, pow-le-u15 k q.small, q.size) in
      let len = (r.rvq.ring.desc h).len in
      let (vq, runs, queue, used', _, ring) =
        add_consumed_buffer_lem debug k cons h len n elems r.rvq q used room inside in
      let (place, io, size) = add_consumed_buffer_frame debug r.rvq vq h len success runs in
      (
        record r { rvq = vq },
        rw
            (
              ap (λ (t : ℕ). t % u16) at ∙ mod-eq_of_lt small,
              get_buffer_length_lem r.rvq h inside,
              role,
              runs,
            )
            refl,
        record {
          role_same = refl;
          queue = queue;
          used = used';
          place = place;
          io = io;
          size = size;
          ring = ring;
        },
      )

  -- The first message that waits is handed out; the others still wait. The endpoints do not matter.
  pub get_rx_buffer-some :
      (k cons m n h : ℕ) (rest : List ℕ) (elems : List UsedElem) (r : Rvdev W V) (d : Device W)
      → Ready k cons (suc m) n (h ∷ rest) elems r
      → (buffer : Ptr) × (len : ℕ) × (vq : Virtqueue) × (get_rx_buffer env debug
            (record r { rdev = d })
          ≡ some (
            some (record { buffer = buffer; len = len; idx = h }),
            record r { rdev = d; rvq = vq },
          ))
        × IsDevice k vq
        × Waits k vq rest m
        × (vq.ring ≡ r.rvq.ring)
        × (vq.shm_io ≡ r.rvq.shm_io)
        × (vq.nentries ≡ r.rvq.nentries)
  unfolding get_rx_buffer
  get_rx_buffer-some k cons m n h rest elems r d v =
      let buffer = r.rvq.shm_io.phys_to_virt (r.rvq.ring.desc h).addr in
      let len = (r.rvq.ring.desc h).len in
      let (vq, runs, queue, waits, ring) =
        get_available_buffer_lem debug k h m rest r.rvq v.queue v.waits v.inside.0 in
      let (io, size) = get_available_buffer_frame debug r.rvq vq _ runs in
      (
        buffer,
        len,
        vq,
        rw (v.role, runs, ==_of_ne buffer 0 v.mapped.0) refl,
        queue,
        waits,
        ring,
        io,
        size,
      )

  -- With no message that waits, there is none.
  pub get_rx_buffer-none :
      (k cons n : ℕ) (elems : List UsedElem) (r : Rvdev W V) (d : Device W)
      → Ready k cons 0 n [] elems r
      → get_rx_buffer env debug (record r { rdev = d }) ≡ some (none, record r { rdev = d })
  unfolding get_rx_buffer
  get_rx_buffer-none k cons n elems r d v =
      rw
        (
          v.role,
          get_available_buffer-none debug r.rvq (omega (arith, v.waits.apart, v.waits.index)),
        )
        refl

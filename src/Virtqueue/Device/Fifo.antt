-- ===== src/Virtqueue/Device/Fifo.antt =====
-- The device sees the available ring, and fills the used ring, in first-in first-out order.
use openamp_core.Prelude.{
  ℕ, suc, ◌+◌, ◌-◌, ◌%◌, ◌^◌, ◌≤◌, ◌<◌, ◌≡◌, refl, ap, ◌∙◌, Bool, true, false, some, List, [], ◌∷◌,
  ◌++◌, arith, bit_and, update, u16, u16-mod-pow, pow-le-u15, slot-lt,
}
use openamp_core.Vring.{UsedElem, Vring}
use openamp_core.Virtqueue.State.{success, Virtqueue}
use openamp_core.Virtqueue.Pending.{pending, pending_wrap, pending-update}
use openamp_core.Virtqueue.Device.{get_available_buffer, add_consumed_buffer}

-- A queue on the device's side: a ring of `2^k` slots, and no call that is still running.
pub record IsDevice (k : ℕ) (vq : Virtqueue) : Type 0 where
  pub size : vq.nentries ≡ 2 ^ k
  pub small : k ≤ 15
  pub idle : vq.inuse ≡ false

-- `m` heads wait in the available ring behind what the device has taken.
pub record Waits (k : ℕ) (vq : Virtqueue) (heads : List ℕ) (m : ℕ) : Type 0 where
  pub index : vq.available_idx < u16
  pub room : m ≤ 2 ^ k
  pub apart : vq.ring.avail_idx ≡ (vq.available_idx + m) % u16
  pub heads_are : pending k vq.ring.avail_ring vq.available_idx m ≡ heads

module _ (debug : Bool) (k h m : ℕ) (rest : List ℕ) (vq : Virtqueue) where
  -- While heads wait, `virtqueue_get_available_buffer` hands out the buffer of the first of them,
  -- with its address as the device sees it, its length and the head itself. The other heads still
  -- wait, in order, and the ring is as it was.
  pub get_available_buffer_lem :
      IsDevice k vq
      → Waits k vq (h ∷ rest) (suc m)
      → h < vq.nentries
      → (q : Virtqueue) × (get_available_buffer debug vq
          ≡ some (
            some (record {
              buffer = vq.shm_io.phys_to_virt (vq.ring.desc h).addr;
              avail_idx = h;
              len = (vq.ring.desc h).len;
            }),
            q,
          ))
        × IsDevice k q
        × Waits k q rest m
        × (q.ring ≡ vq.ring)
  unfolding get_available_buffer
  get_available_buffer_lem d w inside = (
    record vq { available_idx = (vq.available_idx + 1) % u16; inuse = false },
    runs debug,
    record { size = d.size; small = d.small; idle = refl },
    record {
      index = omega arith;
      room = omega (arith, w.room);
      apart = omega (arith, w.apart);
      heads_are =
          pending_wrap k vq.ring.avail_ring (vq.available_idx + 1) m (omega (arith, d.small))
          ∙ cc (w.heads_are);
    },
    refl,
  )
    where
      slot : bit_and vq.available_idx (vq.nentries - 1) < vq.nentries
      slot = (slot-lt k vq.nentries vq.available_idx d.size).1

      at_slot : vq.ring.avail_ring (bit_and vq.available_idx (vq.nentries - 1)) ≡ h
      at_slot =
          ap vq.ring.avail_ring (
            (slot-lt k vq.nentries vq.available_idx d.size).0
            ∙ ap (λ (t : ℕ). vq.available_idx % t) d.size)
          ∙ cc (w.heads_are)

      bound : 2 ^ k ≤ 32768
      bound = pow-le-u15 k d.small

      runs :
          (debug : Bool)
          → get_available_buffer debug vq
            ≡ some (
              some (record {
                buffer = vq.shm_io.phys_to_virt (vq.ring.desc h).addr;
                avail_idx = h;
                len = (vq.ring.desc h).len;
              }),
              record vq { available_idx = (vq.available_idx + 1) % u16; inuse = false },
            )
      runs true = ground (arith, slot, at_slot, bound)
      runs false = ground (arith, slot, at_slot, bound)

-- `m` entries of the used ring wait for the driver, whose index is `cons`.
pub record UsedWaits (k cons : ℕ) (ring : Vring) (elems : List UsedElem) (m : ℕ) : Type 0 where
  pub index : cons < u16
  pub room : m ≤ 2 ^ k
  pub apart : ring.used_idx ≡ (cons + m) % u16
  pub elems_are : pending k ring.used_ring cons m ≡ elems

module _ (debug : Bool) (k cons h len m : ℕ) (elems : List UsedElem) (vq : Virtqueue) where
  -- While the used ring has room, `virtqueue_add_consumed_buffer` of a descriptor of the ring
  -- succeeds and puts the entry behind those that wait for the driver; it counts the entry for the
  -- next kick, and leaves the descriptors and the available ring alone.
  pub add_consumed_buffer_lem :
      IsDevice k vq
      → UsedWaits k cons vq.ring elems m
      → m < 2 ^ k
      → h < vq.nentries
      → (q : Virtqueue) × (add_consumed_buffer debug vq h len ≡ some (success, q))
        × IsDevice k q
        × UsedWaits k cons q.ring (elems ++ (record { id = h; len = len } ∷ [])) (suc m)
        × (q.queued_cnt ≡ (vq.queued_cnt + 1) % u16)
        × (q.ring ≡ record vq.ring { used_ring = q.ring.used_ring; used_idx = q.ring.used_idx })
  unfolding add_consumed_buffer
  add_consumed_buffer_lem d w room inside = (
    consumed,
    runs debug,
    record { size = d.size; small = d.small; idle = refl },
    record {
      index = w.index;
      room = room;
      apart = omega (arith, w.apart);
      elems_are =
          pending-update k vq.ring.used_ring cons m (bit_and vq.ring.used_idx (vq.nentries - 1))
            (record { id = h; len = len }) room at_slot
          ∙ ap (λ (t : List UsedElem). t ++ (record { id = h; len = len } ∷ [])) w.elems_are;
    },
    refl,
    refl,
  )
    where
      consumed : Virtqueue
      consumed = record vq {
        ring = record vq.ring {
          used_ring =
              update vq.ring.used_ring (bit_and vq.ring.used_idx (vq.nentries - 1))
                (record { id = h; len = len });
          used_idx = (vq.ring.used_idx + 1) % u16;
        };
        queued_cnt = (vq.queued_cnt + 1) % u16;
        inuse = false;
      }

      slot : bit_and vq.ring.used_idx (vq.nentries - 1) < vq.nentries
      slot = (slot-lt k vq.nentries vq.ring.used_idx d.size).1

      at_slot : bit_and vq.ring.used_idx (vq.nentries - 1) ≡ (cons + m) % 2 ^ k
      at_slot =
          (slot-lt k vq.nentries vq.ring.used_idx d.size).0
          ∙ ap (λ (t : ℕ). vq.ring.used_idx % t) d.size
          ∙ ap (λ (t : ℕ). t % 2 ^ k) w.apart
          ∙ u16-mod-pow k (cons + m) (omega (arith, d.small))

      runs : (debug : Bool) → add_consumed_buffer debug vq h len ≡ some (success, consumed)
      runs true = ground (arith, slot)
      runs false = ground (arith, slot)

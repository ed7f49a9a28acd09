-- ===== src/Virtqueue/Device.antt =====
-- The device's side of virtqueue.c: the buffers that the driver made available, and the used ring.
pub mod Fifo
pub mod Frame
use openamp_core.Prelude.{
  ℕ, ◌+◌, ◌-◌, ◌%◌, Bool, true, false, Option, none, some, bit_and, ltb, leb, ◌==◌, if◌then◌else◌,
  ◌>>=◌, ◌>>◌, require, update, u16, u32,
}
use openamp_core.Vring.{Desc, UsedElem, Vring}
use openamp_core.Virtqueue.State.{
  Status, success, error_vring_no_buff, Ptr, Io, Virtqueue, vqueue_busy, vqueue_idle,
}

-- `virtqueue_get_buffer_length`
pub get_buffer_length : Virtqueue → ℕ → Option ℕ
get_buffer_length vq idx = require (ltb idx vq.nentries) >> some (vq.ring.desc idx).len

-- `virtqueue_get_buffer_addr`
pub get_buffer_addr : Virtqueue → ℕ → Option Ptr
get_buffer_addr vq idx =
    require (ltb idx vq.nentries) >> some (vq.shm_io.phys_to_virt (vq.ring.desc idx).addr)

-- What `virtqueue_get_available_buffer` hands out: the buffer, `*avail_idx` and `*len`.
pub record Available : Type 0 where
  pub buffer : Ptr
  pub avail_idx : ℕ
  pub len : ℕ

-- `virtqueue_get_available_buffer`; the answer `none` is NULL.
pub get_available_buffer : Bool → Virtqueue → Option (Option Available × Virtqueue)
unfolding get_buffer_length get_buffer_addr vqueue_busy vqueue_idle
get_available_buffer debug vq =
    if vq.available_idx == vq.ring.avail_idx then some (none, vq) else do
      busy ← vqueue_busy debug vq
      let head_idx = bit_and busy.available_idx (busy.nentries - 1)
      require (ltb head_idx busy.nentries)
      let taken = record busy { available_idx = (busy.available_idx + 1) % u16 }
      let avail_idx = taken.ring.avail_ring head_idx
      buffer ← get_buffer_addr taken avail_idx
      len ← get_buffer_length taken avail_idx
      some (
        some (record { buffer = buffer; avail_idx = avail_idx; len = len }),
        vqueue_idle debug taken,
      )

-- `virtqueue_add_consumed_buffer`
pub add_consumed_buffer : Bool → Virtqueue → (head_idx len : ℕ) → Option (Status × Virtqueue)
unfolding vqueue_busy vqueue_idle
add_consumed_buffer debug vq head_idx len =
    if leb vq.nentries head_idx then some (error_vring_no_buff, vq) else do
      busy ← vqueue_busy debug vq
      let used_idx = bit_and busy.ring.used_idx (busy.nentries - 1)
      require (ltb used_idx busy.nentries)
      some (
        success,
        vqueue_idle debug (record busy {
          ring = record busy.ring {
            used_ring = update busy.ring.used_ring used_idx (record { id = head_idx; len = len });
            used_idx = (busy.ring.used_idx + 1) % u16;
          };
          queued_cnt = (busy.queued_cnt + 1) % u16;
        }),
      )

-- `virtqueue_get_desc_size`: the length of the next available buffer, 0 if there is none. It takes
-- nothing.
pub get_desc_size : Bool → Virtqueue → Option (ℕ × Virtqueue)
unfolding vqueue_busy vqueue_idle
get_desc_size debug vq = if vq.available_idx == vq.ring.avail_idx then some (0, vq) else do
  busy ← vqueue_busy debug vq
  let head_idx = bit_and busy.available_idx (busy.nentries - 1)
  require (ltb head_idx busy.nentries)
  let avail_idx = busy.ring.avail_ring head_idx
  require (ltb avail_idx busy.nentries)
  some ((busy.ring.desc avail_idx).len, vqueue_idle debug busy)

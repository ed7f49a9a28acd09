-- ===== src/Virtqueue/Device/Frame.antt =====
-- What the device's operations leave alone.
use openamp_core.Prelude.{ℕ, ◌<◌, ◌≡◌, Bool, true, false, Option, none, some, arith}
use openamp_core.Virtqueue.State.{Status, Virtqueue}
use openamp_core.Virtqueue.Device.{
  Available, get_buffer_length, get_available_buffer, add_consumed_buffer,
}

pub get_available_buffer_frame :
    (debug : Bool) (vq q : Virtqueue) (a : Option Available)
    → get_available_buffer debug vq ≡ some (a, q)
    → (q.shm_io ≡ vq.shm_io) × (q.nentries ≡ vq.nentries)
unfolding get_available_buffer
get_available_buffer_frame true vq q a e = ground arith
get_available_buffer_frame false vq q a e = ground arith

pub add_consumed_buffer_frame :
    (debug : Bool) (vq q : Virtqueue) (h len : ℕ) (s : Status)
    → add_consumed_buffer debug vq h len ≡ some (s, q)
    → (q.available_idx ≡ vq.available_idx) × (q.shm_io ≡ vq.shm_io) × (q.nentries ≡ vq.nentries)
unfolding add_consumed_buffer
add_consumed_buffer_frame true vq q h len s e = ground arith
add_consumed_buffer_frame false vq q h len s e = ground arith

-- An empty available ring: NULL, and the queue is as it was.
pub get_available_buffer-none :
    (debug : Bool) (vq : Virtqueue)
    → vq.ring.avail_idx ≡ vq.available_idx
    → get_available_buffer debug vq ≡ some (none, vq)
unfolding get_available_buffer
get_available_buffer-none debug vq e = ground arith

pub get_buffer_length_lem :
    (vq : Virtqueue) (idx : ℕ)
    → idx < vq.nentries
    → get_buffer_length vq idx ≡ some (vq.ring.desc idx).len
unfolding get_buffer_length
get_buffer_length_lem vq idx h = ground arith

-- ===== src/Virtqueue/Interrupts.antt =====
-- Notifications in virtqueue.c: enabling and disabling callbacks, and when a kick reaches the other side.
pub mod Notify
use openamp_core.Prelude.{
  ℕ, ◌+◌, ◌-◌, ◌%◌, Bool, true, false, not, ◌&&◌, Option, none, some, ltb, leb, ◌==◌, if◌then◌else◌,
  ◌>>=◌, ◌>>◌, has_flag, u16,
}
use openamp_core.Vring.{Vring, sub16, vring_need_event}
use openamp_core.Virtqueue.State.{
  Role, driver, device, unsupported, Ptr, Virtqueue, vqassert, vqueue_busy, vqueue_idle,
}

-- `flags |= 1` and `flags &= ~1`, for VRING_USED_F_NO_NOTIFY and VRING_AVAIL_F_NO_INTERRUPT.
abbrev pub set_flag : ℕ → ℕ
set_flag flags = flags - flags % 2 + 1

abbrev pub clear_flag : ℕ → ℕ
clear_flag flags = flags - flags % 2

-- How `virtqueue_disable_cb` changes the ring.
pub disable_ring : Role → Bool → (nentries used_cons_idx available_idx : ℕ) → Vring → Vring
disable_ring driver true n cons avail r = record r { used_event = sub16 (sub16 cons n) 1 }
disable_ring device true n cons avail r = record r { avail_event = sub16 (sub16 avail n) 1 }
disable_ring driver false n cons avail r = record r { avail_flags = set_flag r.avail_flags }
disable_ring device false n cons avail r = record r { used_flags = set_flag r.used_flags }
disable_ring unsupported event n cons avail r = r

-- `virtqueue_disable_cb`
pub disable_cb : Bool → Virtqueue → Option Virtqueue
unfolding disable_ring vqueue_busy vqueue_idle
disable_cb debug vq = do
  busy ← vqueue_busy debug vq
  some (
      vqueue_idle debug (record busy {
        ring =
            disable_ring busy.role busy.event_idx busy.nentries busy.used_cons_idx
              busy.available_idx busy.ring;
      }))

-- `virtqueue_nused` and `virtqueue_navail`
pub nused : Bool → Virtqueue → Option ℕ
nused debug vq = do
  let n = sub16 vq.ring.used_idx vq.used_cons_idx
  vqassert debug (leb n vq.nentries)
  some n

pub navail : Bool → Virtqueue → Option ℕ
navail debug vq = do
  let n = sub16 vq.ring.avail_idx vq.available_idx
  vqassert debug (leb n vq.nentries)
  some n

-- How `vq_ring_enable_interrupt` changes the ring.
pub enable_ring : Role → Bool → (ndesc used_cons_idx available_idx : ℕ) → Vring → Vring
enable_ring driver true ndesc cons avail r = record r { used_event = (cons + ndesc) % u16 }
enable_ring device true ndesc cons avail r = record r { avail_event = (avail + ndesc) % u16 }
enable_ring driver false ndesc cons avail r = record r { avail_flags = clear_flag r.avail_flags }
enable_ring device false ndesc cons avail r = record r { used_flags = clear_flag r.used_flags }
enable_ring unsupported event ndesc cons avail r = r

pub waiting : Bool → Role → Virtqueue → Option ℕ
unfolding nused navail
waiting debug driver vq = nused debug vq
waiting debug device vq = navail debug vq
waiting debug unsupported vq = some 0

-- `vq_ring_enable_interrupt`: true for the answer 1, that more than `ndesc` entries wait.
pub ring_enable_interrupt : Bool → Virtqueue → ℕ → Option (Bool × Virtqueue)
unfolding enable_ring waiting
ring_enable_interrupt debug vq ndesc = do
  let q = record vq {
    ring = enable_ring vq.role vq.event_idx ndesc vq.used_cons_idx vq.available_idx vq.ring;
  }
  n ← waiting debug q.role q
  some (ltb ndesc n, q)

-- `virtqueue_enable_cb`
pub enable_cb : Bool → Virtqueue → Option (Bool × Virtqueue)
unfolding ring_enable_interrupt
enable_cb debug vq = ring_enable_interrupt debug vq 0

pub must_notify_at : Role → Bool → (queued_cnt : ℕ) → Vring → Bool
must_notify_at driver true queued r =
    vring_need_event r.avail_event r.avail_idx (sub16 r.avail_idx queued)
must_notify_at device true queued r =
    vring_need_event r.used_event r.used_idx (sub16 r.used_idx queued)
must_notify_at driver false queued r = not (has_flag 1 r.used_flags)
must_notify_at device false queued r = not (has_flag 1 r.avail_flags)
must_notify_at unsupported event queued r = false

-- `vq_ring_must_notify`
pub ring_must_notify : Virtqueue → Bool
unfolding must_notify_at
ring_must_notify vq = must_notify_at vq.role vq.event_idx vq.queued_cnt vq.ring

-- `virtqueue_kick`, with `vq_ring_notify`: whether it calls `notify`, and the queue after it.
pub kick : Bool → Virtqueue → Option (Bool × Virtqueue)
unfolding ring_must_notify vqueue_busy vqueue_idle
kick debug vq = do
  busy ← vqueue_busy debug vq
  some (
    ring_must_notify busy && not (busy.notify == 0),
    vqueue_idle debug (record busy { queued_cnt = 0 }),
  )

-- `virtqueue_notification`: the callback that it calls, if one is set.
pub notification : Virtqueue → Option Ptr
notification vq = if vq.callback == 0 then none else some vq.callback

-- ===== src/Virtqueue/Interrupts/Notify.antt =====
-- When a kick reaches the other side.
use openamp_core.Prelude.{
  ◌&&◌, not, ◌==◌, ℕ, ◌+◌, ◌%◌, ◌≤◌, ◌<◌, ◌≡◌, ◌≢◌, ◌↔◌, refl, sym, subst, ◌∙◌, Bool, true, false,
  some, arith, u16,
}
use openamp_core.Vring.{Vring, sub16, vring_need_event}
use openamp_core.Vring.Event.{need_event-queued}
use openamp_core.Virtqueue.State.{Role, driver, device, unsupported, Virtqueue}
use openamp_core.Virtqueue.Interrupts.{
  disable_cb, ring_must_notify, must_notify_at, disable_ring, kick,
}

-- The index that a side publishes.
abbrev pub published : Role → Vring → ℕ
published driver r = r.avail_idx
published device r = r.used_idx
published unsupported r = 0

must_event :
    (vq : Virtqueue)
    → vq.role ≡ driver
    → vq.event_idx ≡ true
    → ring_must_notify vq
      ≡ vring_need_event vq.ring.avail_event vq.ring.avail_idx
          (sub16 vq.ring.avail_idx vq.queued_cnt)
unfolding ring_must_notify must_notify_at
must_event vq role event = rw (role, event) refl

-- For a driver with event indices and a notify function, with no call that is still running, at most
-- 2^16 - 1 entries queued and indices of 16 bits, a kick notifies the other side exactly when the event index that it asked for
-- is among the `queued_cnt` entries published since the last kick. Then nothing is queued any more, and the ring is as it was.
pub kick_event :
    (debug : Bool) (vq : Virtqueue)
    → vq.role ≡ driver
    → vq.inuse ≡ false
    → vq.event_idx ≡ true
    → vq.notify ≢ 0
    → vq.queued_cnt < u16
    → vq.ring.avail_idx < u16
    → vq.ring.avail_event < u16
    → (b : Bool) × (q : Virtqueue) × (kick debug vq ≡ some (b, q))
      × ((b ≡ true) ↔ (
          (i : ℕ) × (i < vq.queued_cnt)
          × (vq.ring.avail_event ≡ (sub16 vq.ring.avail_idx vq.queued_cnt + i) % u16)))
      × (q ≡ record vq { queued_cnt = 0 })
unfolding kick
kick_event debug vq role idle event set queued now asked =
    let (yes_event, no_event) =
      need_event-queued vq.ring.avail_event vq.ring.avail_idx vq.queued_cnt asked now queued in
    (
      ring_must_notify vq,
      record vq { queued_cnt = 0 },
      runs debug,
      (
        λ e. yes_event (sym (must_event vq role event) ∙ e),
        λ p. must_event vq role event ∙ no_event p,
      ),
      refl,
    )
  where
    runs : (debug : Bool) → kick debug vq ≡ some (ring_must_notify vq, record vq { queued_cnt = 0 })
    runs true = ground arith
    runs false = ground arith

-- The two sides of one ring.
abbrev pub other : Role → Role
other driver = device
other device = driver
other unsupported = unsupported

-- A side that has consumed up to `cons`: the driver reads the used ring, the device the available
-- ring.
abbrev pub consumed_at : Role → (used_cons_idx available_idx : ℕ) → ℕ
consumed_at driver cons avail = cons
consumed_at device cons avail = avail
consumed_at unsupported cons avail = 0

-- `s` carries the event indices and the flags of `r`: what asks for or suppresses notifications.
pub record SameRequests (r s : Vring) : Type 0 where
  pub used_event : s.used_event ≡ r.used_event
  pub avail_event : s.avail_event ≡ r.avail_event
  pub avail_flags : s.avail_flags ≡ r.avail_flags
  pub used_flags : s.used_flags ≡ r.used_flags

abbrev pub disabled : Virtqueue → Virtqueue
disabled vq = record vq {
  ring = disable_ring vq.role vq.event_idx vq.nentries vq.used_cons_idx vq.available_idx vq.ring;
}

silent_at :
    (role : Role) (event : Bool) (n cons avail m queued : ℕ) (r s : Vring)
    → m + n < u16
    → m ≤ n
    → queued ≤ m
    → consumed_at role cons avail < u16
    → published (other role) s ≡ (consumed_at role cons avail + m) % u16
    → SameRequests (disable_ring role event n cons avail r) s
    → must_notify_at (other role) event queued s ≡ false
unfolding must_notify_at disable_ring vring_need_event
silent_at driver true n cons avail m queued r s small room few index now same = ground arith
silent_at device true n cons avail m queued r s small room few index now same = ground arith
silent_at driver false n cons avail m queued r s small room few index now same =
    rw same.avail_flags (ground arith)
silent_at device false n cons avail m queued r s small room few index now same =
    rw same.used_flags (ground arith)
silent_at unsupported event n cons avail m queued r s small room few index now same = refl

disable_runs :
    (debug : Bool) (vq : Virtqueue) → vq.inuse ≡ false → disable_cb debug vq ≡ some (disabled vq)
unfolding disable_cb
disable_runs true vq idle = ground arith
disable_runs false vq idle = ground arith

module _ (debug : Bool) (vq o : Virtqueue) (m : ℕ) where
  -- `virtqueue_disable_cb` of a driver's queue in which no call is running silences the device `o`,
  -- which is the other side, in a build that has that role: if `o` has published `m` entries beyond
  -- what the driver consumed, of which the last `queued_cnt`, at most `m`, since its last kick, `m` is
  -- at most the size of the ring, the sum of the two is below 2^16, `o` has the same feature bit for
  -- event indices, and the event indices and flags stay as they are, then `vq_ring_must_notify` tells
  -- `o` not to notify, with event indices as with flags.
  pub disable_cb-silent :
      vq.role ≡ driver
      → vq.inuse ≡ false
      → m + vq.nentries < u16
      → vq.used_cons_idx < u16
      → o.role ≡ device
      → o.event_idx ≡ vq.event_idx
      → SameRequests (disabled vq).ring o.ring
      → m ≤ vq.nentries
      → o.queued_cnt ≤ m
      → o.ring.used_idx ≡ (vq.used_cons_idx + m) % u16
      → (disable_cb debug vq ≡ some (disabled vq)) × (ring_must_notify o ≡ false)
  unfolding ring_must_notify
  disable_cb-silent is_driver idle small index role event same room few now = (
    disable_runs debug vq idle,
    rw (role, event)
        (silent_at driver vq.event_idx vq.nentries vq.used_cons_idx vq.available_idx m o.queued_cnt
          vq.ring o.ring small room few index now
          (subst
            (λ (side : Role).
              SameRequests
                (disable_ring side vq.event_idx vq.nentries vq.used_cons_idx vq.available_idx
                  vq.ring)
                o.ring)
            is_driver same)),
  )

-- A kick of a queue with no call that is still running forgets what was queued, and changes nothing
-- else.
pub kick_idle :
    (debug : Bool) (vq : Virtqueue)
    → vq.inuse ≡ false
    → (notified : Bool) × (kick debug vq
        ≡ some (notified, record vq { queued_cnt = 0; inuse = false }))
unfolding kick
kick_idle true vq idle =
    (ring_must_notify (record vq { inuse = true }) && not (vq.notify == 0), rw idle refl)
kick_idle false vq idle = (
  ring_must_notify vq && not (vq.notify == 0),
  λ i.
      some
        (ring_must_notify vq && not (vq.notify == 0), record vq { queued_cnt = 0; inuse = idle i }),
)

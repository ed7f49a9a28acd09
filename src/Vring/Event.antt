-- ===== src/Vring/Event.antt =====
-- What `vring_need_event` decides.
use openamp_core.Prelude.{ℕ, ◌+◌, ◌%◌, ◌<◌, ◌≡◌, ◌↔◌, true, arith, u16}
use openamp_core.Vring.{sub16, vring_need_event}

-- For 16-bit indices, `vring_need_event` says yes exactly when the event index is one of those that
-- were published since `old`: `old`, `old + 1`, and so on up to but without `new_idx`, going round
-- at 2^16.
pub vring_need_event_lem :
    (event_idx new_idx old : ℕ)
    → event_idx < u16
    → new_idx < u16
    → old < u16
    → (vring_need_event event_idx new_idx old ≡ true)
      ↔ ((i : ℕ) × (i < sub16 new_idx old) × (event_idx ≡ (old + i) % u16))
unfolding vring_need_event
vring_need_event_lem event_idx new_idx old he hn ho =
    (λ yes_event. (sub16 event_idx old, ground arith, ground arith), λ published. ground arith)

-- The same, where `queued` entries were published.
pub need_event-queued :
    (event_idx new_idx queued : ℕ)
    → event_idx < u16
    → new_idx < u16
    → queued < u16
    → (vring_need_event event_idx new_idx (sub16 new_idx queued) ≡ true)
      ↔ ((i : ℕ) × (i < queued) × (event_idx ≡ (sub16 new_idx queued + i) % u16))
unfolding vring_need_event
need_event-queued event_idx new_idx queued he hn hq = (
  λ yes_event. (sub16 event_idx (sub16 new_idx queued), ground arith, ground arith),
  λ published. ground arith,
)

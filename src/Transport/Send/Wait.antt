-- ===== src/Transport/Send/Wait.antt =====
-- The wait for a buffer to send in comes to an end.
use openamp_core.Prelude.{
  ℕ, zero, suc, ◌-◌, ◌%◌, ◌<◌, ◌≡◌, ◌≢◌, ◌⊎◌, refl, ap, sym, subst, ◌∙◌, Bool, true, false, Option,
  none, some, u16, List, [], ◌∷◌, ◌++◌, All-middle, ◌==◌, ==_of_ne, if◌then◌else◌, ◌>>=◌, inl, inr,
  Bool-cases, pos, has_flag, arith,
}
use openamp_core.Virtqueue.State.{Role, driver, Ptr, Virtqueue}
use openamp_core.Virtqueue.Driver.{Got}
use openamp_core.Virtqueue.Driver as Driver
use openamp_core.Virtqueue.Driver.Chains.{Chain}
use openamp_core.Virtqueue.Driver.Valid.{InFlight, IsValid}
use openamp_core.Virtqueue.Driver.Get.{get_buffer-IsValid, get_buffer-none}
use openamp_core.Virtio.Device.{VirtioDevice, get_status, status_driver_ok}
use openamp_core.Transport.State.{Rvdev, Env}
use openamp_core.Transport.Pool as Pool
use openamp_core.Transport.Buffers.{Taken, from_got, get_tx_buffer, queue_tx_buffer, pool_tx_buffer}
use openamp_core.Transport.Send.{
  notify_wait, locked_tx_buffer, wait_round, wait_tx_buffer, wait_ticks, tx_payload,
  get_tx_payload_buffer,
}

-- The next used entry of a queue is a chain that is in flight.
pub record Answered (vq : Virtqueue) : Type 0 where
  pub k : ℕ
  pub fs : List ℕ
  pub cs : List Chain
  pub h : ℕ
  pub xs : List ℕ
  pub ds : List Chain
  pub valid : IsValid k fs (cs ++ ((h, xs) ∷ ds)) vq
  pub pending : vq.used_cons_idx ≢ vq.ring.used_idx
  pub named : (vq.ring.used_ring (vq.used_cons_idx % vq.nentries)).id % u16 ≡ h

-- The driver's side of the send queue between two calls, with nothing to recycle: the device has used
-- no chain that the driver has not seen, or the next one is in flight.
pub record Sendable {W V : Type 0} (r : Rvdev W V) : Type 0 where
  pub role : r.vdev.role ≡ driver
  pub unlocked : r.rdev.locked ≡ false
  pub nothing : r.reclaimer ≡ []
  pub queue : (r.svq.used_cons_idx ≡ r.svq.ring.used_idx) ⊎ Answered r.svq

module _ {W V : Type 0} (env : Env W V) (debug : Bool) where
  queue_got :
      (side : Role) (r : Rvdev W V) (got : Option Got) (q : Virtqueue) (t : Taken)
      → side ≡ driver
      → Driver.get_buffer debug r.svq ≡ some (got, q)
      → from_got got ≡ some t
      → queue_tx_buffer env debug side r ≡ some (some t, record r { svq = q })
  unfolding queue_tx_buffer
  queue_got side r got q t role runs handed =
      let next : Rvdev W V = record r { svq = q } in
      let hand : Option Taken → Option (Option Taken × Rvdev W V) = λ x. elim x [
        | some taken ↦ some (some taken, next)
        | none ↦ if q.free_cnt == 0 then some (none, next) else some (pool_tx_buffer env debug next)
      ] in
      rw (role, runs) (ap hand handed)

  queue_nothing :
      (side : Role) (r : Rvdev W V)
      → side ≡ driver
      → r.svq.used_cons_idx ≡ r.svq.ring.used_idx
      → (taken : Option Taken) × (s : Rvdev W V) × (queue_tx_buffer env debug side r
          ≡ some (taken, s))
        × (s.vdev ≡ r.vdev)
        × (s.reclaimer ≡ r.reclaimer)
        × (s.svq ≡ r.svq)
  unfolding queue_tx_buffer pool_tx_buffer
  queue_nothing side r role seen = elim (Bool-cases (r.svq.free_cnt == 0)) [
    | inl full ↦ (none, r, rw (role, get_buffer-none debug r.svq seen, full) refl, refl, refl, refl)
    | inr room ↦
        (let (buffer, pool) = Pool.get_buffer r.shpool r.config.h2r_buf_size in
          (
            if buffer == 0
                then none
                else some (record { buffer = buffer; len = r.config.h2r_buf_size; idx = 0 }),
            record r { shpool = pool },
            rw (role, get_buffer-none debug r.svq seen, room) refl,
            refl,
            refl,
            refl,
          ))
  ]

  -- The call for a buffer under the lock is answered, and if there is none, the next one may follow.
  locked_tx_buffer_lem :
      (r : Rvdev W V)
      → Sendable r
      → (taken : Option Taken) × (s : Rvdev W V) × (locked_tx_buffer env debug r ≡ some (taken, s))
        × (taken ≡ none → Sendable s)
  unfolding locked_tx_buffer get_tx_buffer
  locked_tx_buffer_lem r v =
      let held : Rvdev W V = record r { rdev = record r.rdev { locked = true } } in
      elim v.queue [
        | inr a ↦
            (let (q, runs, _, _, _) =
                get_buffer-IsValid debug a.k a.h a.xs a.fs a.cs a.ds r.svq a.valid a.pending
                  a.named in
              let marked =
                (All-middle (InFlight r.svq.ring.desc r.svq.descx) a.cs (a.h, a.xs) a.ds
                  a.valid.flight).0.marked in
              let got : Got = record {
                cookie = (r.svq.descx a.h).cookie;
                len = (r.svq.ring.used_ring (r.svq.used_cons_idx % r.svq.nentries)).len;
                idx = r.svq.used_cons_idx % r.svq.nentries;
              } in
              let buffer : Taken = record { buffer = got.cookie; len = got.len; idx = got.idx } in
              let handed : from_got (some got) ≡ some buffer =
                rw (==_of_ne got.cookie 0 marked) refl in
              (
                some buffer,
                record held { svq = q; rdev = record r.rdev { locked = false } },
                rw
                    (
                      v.unlocked,
                      v.nothing,
                      queue_got r.vdev.role (record held { reclaimer = [] }) (some got) q buffer
                          v.role runs handed,
                    )
                    refl,
                λ e. absurd (cc),
              ))
        | inl seen ↦
            (let (taken, s, runs, vdev, reclaimer, svq) =
                queue_nothing r.vdev.role (record held { reclaimer = [] }) v.role seen in
              (
                taken,
                record s { rdev = record s.rdev { locked = false } },
                rw (v.unlocked, v.nothing, runs) refl,
                λ e. record {
                  role = ap (λ (d : VirtioDevice V). d.role) vdev ∙ v.role;
                  unlocked = refl;
                  nothing = reclaimer;
                  queue =
                      inl (
                        subst (λ (q : Virtqueue). q.used_cons_idx ≡ q.ring.used_idx) (sym svq)
                          seen);
                },
              ))
      ]

  round_over :
      (again : ℕ → Rvdev W V → Option (Option Taken × Rvdev W V)) (ticks : ℕ) (s : Rvdev W V)
      → (ticks == 0) ≡ true
      → wait_round env debug again none ticks s ≡ some (none, s)
  unfolding wait_round
  round_over again ticks s over = rw (wait_round, over) refl

  round_sleeps :
      (again : ℕ → Rvdev W V → Option (Option Taken × Rvdev W V)) (ticks : ℕ) (s : Rvdev W V)
      → (ticks == 0) ≡ false
      → env.notify_wait_cb ≡ none
      → wait_round env debug again none ticks s ≡ again (ticks - 1) (env.sleep s)
  unfolding wait_round notify_wait
  round_sleeps again ticks s left alone =
      rw (wait_round, left, alone) (rw (notify_wait, alone) refl)

  -- Without a callback for waiting the loop ends within one round for each tick and one more.
  wait_tx_buffer_lem :
      (fuel ticks : ℕ) (r : Rvdev W V)
      → env.notify_wait_cb ≡ none
      → ((q : Rvdev W V) → Sendable q → Sendable (env.sleep q))
      → Sendable r
      → ticks < fuel
      → (taken : Option Taken) × (s : Rvdev W V) × (wait_tx_buffer env debug fuel ticks r
          ≡ some (taken, s))
  unfolding wait_tx_buffer wait_round notify_wait
  wait_tx_buffer_lem zero ticks r alone sleeps v enough = absurd (omega (arith, enough))
  wait_tx_buffer_lem (suc fuel) ticks r alone sleeps v enough =
      let (taken, s, runs, after) = locked_tx_buffer_lem r v in
      ended taken s (λ q w l. wait_tx_buffer_lem fuel (ticks - 1) q alone sleeps w l) runs after
    where
      further : ℕ → Rvdev W V → Option (Option Taken × Rvdev W V)
      further left q = wait_tx_buffer env debug fuel left q

      step : Option Taken × Rvdev W V → Option (Option Taken × Rvdev W V)
      step got = wait_round env debug further got.0 ticks got.1

      ended :
          (taken : Option Taken) (s : Rvdev W V)
          → ((q : Rvdev W V)
              → Sendable q
              → ticks - 1 < fuel
              → (t : Option Taken) × (u : Rvdev W V) × (wait_tx_buffer env debug fuel (ticks - 1) q
                  ≡ some (t, u)))
          → locked_tx_buffer env debug r ≡ some (taken, s)
          → (taken ≡ none → Sendable s)
          → (t : Option Taken) × (u : Rvdev W V) × (wait_tx_buffer env debug (suc fuel) ticks r
              ≡ some (t, u))
      ended (some t) s again runs after = (some t, s, rw runs refl)
      ended none s again runs after = elim (Bool-cases (ticks == 0)) [
        | inl over ↦ (none, s, ap (λ x. x >>= step) runs ∙ round_over further ticks s over)
        | inr left ↦
            (let (t, u, rest) =
                again (env.sleep s) (sleeps s (after refl)) (ground (arith, enough)) in
              (t, u, ap (λ x. x >>= step) runs ∙ round_sleeps further ticks s left alone ∙ rest))
      ]

  -- On a driver with nothing to recycle, no callback for waiting and a platform that is ready, a call
  -- for a buffer to send in returns, also if it waits: 15001 rounds are enough, whatever the device does
  -- during the sleeps, as long as the next chain that it uses is one in flight in a valid queue, and
  -- the driver is left unlocked and with nothing to recycle.
  pub get_tx_payload_buffer-returns :
      (fuel : ℕ) (wait : Bool) (st : ℕ) (w : V) (r : Rvdev W V)
      → env.notify_wait_cb ≡ none
      → ((q : Rvdev W V) → Sendable q → Sendable (env.sleep q))
      → Sendable r
      → get_status r.vdev ≡ (pos 0, st, record r.vdev { world = w })
      → has_flag status_driver_ok st ≡ true
      → wait_ticks < fuel
      → (buffer : Option (Ptr × ℕ)) × (s : Rvdev W V) × (get_tx_payload_buffer env debug fuel r wait
          ≡ some (buffer, s))
  unfolding get_tx_payload_buffer
  get_tx_payload_buffer-returns fuel wait st w r alone sleeps v asked ok enough =
      let next : Rvdev W V = record r { vdev = record r.vdev { world = w } } in
      let fit : Sendable next = record {
        role = v.role;
        unlocked = v.unlocked;
        nothing = v.nothing;
        queue = v.queue;
      } in
      let ticks : ℕ = if wait then wait_ticks else 0 in
      let (taken, s, runs) =
        wait_tx_buffer_lem fuel ticks next alone sleeps fit (ground (arith, enough)) in
      (
        (tx_payload env debug taken s).0,
        (tx_payload env debug taken s).1,
        rw asked (rw ok (rw runs refl)),
      )

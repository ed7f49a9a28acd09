-- ===== src/Remoteproc/Lifecycle/Steps.antt =====
-- What each call of the life cycle does, as a step of a relation of states.
use openamp_core.Prelude.{
  ◌≡◌, refl, sym, subst, true, false, not, ◌&&◌, Option, none, some, ℤ, pos, is_success, inl, inr,
  Bool-cases,
}
use openamp_core.Bitmap.{Bitmap}
use openamp_core.Virtqueue.State.{Ptr}
use openamp_core.Remoteproc.State.{
  ProcState, offline, ready, running, stopped, Rproc, einval, enodev, eagain, release,
}
use openamp_core.Remoteproc.Lifecycle.{
  is_offline, is_ready, is_stopped, call, call_remove, remove, config, start, stop, go_offline,
  shutdown,
}
use openamp_core.Remoteproc.Lifecycle.Relation.{
  Call, removes, configures, starts, stops, shuts_down, Step, is_configured, is_started, Idle,
  is_removed, stays_down, Move, fails, rests, steps, is_live, offline_is, ready_is, stop-Step,
  end-Step, rest-Idle, shut_down, failed_same,
}

module _ {X : Type 0} where
  pub invoke : Call → Rproc X → Option (ℤ × Rproc X)
  unfolding remove config start stop shutdown
  invoke removes r = remove r
  invoke (configures datum) r = config r datum
  invoke starts r = start r
  invoke stops r = stop r
  invoke shuts_down r = shutdown r

  -- What a call may do to a remote processor, given its answer.
  pub record Allowed (c : Call) (r : Rproc X) (ret : ℤ) (s : Rproc X) : Type 0 where
    pub unlocked : s.locked ≡ false
    pub ops_same : s.ops ≡ r.ops
    pub moves : Move c ret r.state s.state

  called :
      (op : Option (X → ℤ × X)) (missing : ℤ) (r : Rproc X)
      → (ret : ℤ) × (w : X) × (call op missing r ≡ (ret, record r { world = w }))
  called none missing r = (missing, r.world, refl)
  called (some op) missing r = ((op r.world).0, (op r.world).1, refl)

  abbrev pub Outcome : Call → Option (ℤ × Rproc X) → Rproc X → Type 0
  Outcome c x r = (ret : ℤ) × (s : Rproc X) × (x ≡ some (ret, s)) × Allowed c r ret s

  failed :
      (c : Call) (ret : ℤ) (w : X) (r : Rproc X)
      → is_success ret ≡ false
      → Allowed c r ret (record r { locked = false; world = w })
  failed c ret w r bad = record { unlocked = refl; ops_same = refl; moves = fails bad }

  rested :
      (c : Call) (w : X) (r : Rproc X)
      → Idle c r.state
      → Allowed c r (pos 0) (record r { locked = false; world = w })
  rested c w r idle = record { unlocked = refl; ops_same = refl; moves = rests refl idle }

  stepped :
      (c : Call) (ret : ℤ) (w : X) (b : Bitmap) (st : ProcState) (r : Rproc X)
      → is_success ret ≡ true
      → Step c r.state st
      → Allowed c r ret (record r { locked = false; state = st; bitmap = b; world = w })
  stepped c ret w b st r ok step = record {
    unlocked = refl;
    ops_same = refl;
    moves = steps ok step;
  }

  removed :
      (op : Option (X → X)) (r : Rproc X) → (w : X) × (call_remove op r ≡ record r { world = w })
  removed none r = (r.world, refl)
  removed (some op) r = (op r.world, refl)

  remove_lem : (r : Rproc X) → r.locked ≡ false → Outcome removes (remove r) r
  unfolding remove
  remove_lem r free = elim (Bool-cases (is_offline r.state)) [
    | inr busy ↦ (eagain, record r { locked = false }, rw (free, busy) refl, failed _ _ _ r refl)
    | inl off ↦
        (let (w, runs) = removed r.ops.remove (record r { locked = true }) in
          (
            pos 0,
            record r { locked = false; world = w },
            rw (free, off, runs) refl,
            rested removes w r (subst (Idle removes) (sym (offline_is r.state off)) is_removed),
          ))
  ]

  config_lem :
      (datum : Ptr) (r : Rproc X) → r.locked ≡ false → Outcome (configures datum) (config r datum) r
  unfolding config
  config_lem datum r free = elim (Bool-cases (is_offline r.state)) [
    | inr busy ↦ (einval, record r { locked = false }, rw (free, busy) refl, failed _ _ _ r refl)
    | inl off ↦
        (let op : Option (X → ℤ × X) = elim r.ops.config [
          | none ↦ none
          | some f ↦ some (λ w. f w datum)
        ] in
          let (ret, w, runs) = called op (pos 0) (record r { locked = true }) in
          elim (Bool-cases (is_success ret)) [
            | inr bad ↦ (
              ret,
              record r { locked = false; world = w },
              rw (free, off, runs, bad) refl,
              failed _ _ _ r bad,
            )
            | inl ok ↦ (
              ret,
              record r { locked = false; state = ready; world = w },
              rw (free, off, runs, ok) refl,
              stepped _ _ _ _ _ r ok (
                  subst (λ st. Step (configures datum) st ready) (sym (offline_is r.state off))
                    is_configured),
            )
          ])
  ]

  start_lem : (r : Rproc X) → r.locked ≡ false → Outcome starts (start r) r
  unfolding start
  start_lem r free = elim (Bool-cases (is_ready r.state)) [
    | inr other ↦ (einval, record r { locked = false }, rw (free, other) refl, failed _ _ _ r refl)
    | inl at ↦
        (let (ret, w, runs) = called r.ops.start enodev (record r { locked = true }) in
          elim (Bool-cases (is_success ret)) [
            | inr bad ↦ (
              ret,
              record r { locked = false; world = w },
              rw (free, at, runs, bad) refl,
              failed _ _ _ r bad,
            )
            | inl ok ↦ (
              ret,
              record r { locked = false; state = running; world = w },
              rw (free, at, runs, ok) refl,
              stepped _ _ _ _ _ r ok
                  (subst (λ st. Step starts st running) (sym (ready_is r.state at)) is_started),
            )
          ])
  ]

  pub stop_lem :
      (r : Rproc X) → r.locked ≡ false → is_live r.state ≡ true → Outcome stops (stop r) r
  unfolding stop
  stop_lem r free live = elim (Bool-cases (not (is_stopped r.state) && not (is_offline r.state))) [
    | inr still ↦ (
      pos 0,
      record r { locked = false },
      rw (free, still) refl,
      rested stops r.world r (rest-Idle r.state live still),
    )
    | inl moves ↦
        (let (ret, w, runs) = called r.ops.stop enodev (record r { locked = true }) in
          elim (Bool-cases (is_success ret)) [
            | inr bad ↦ (
              ret,
              record r { locked = false; world = w },
              rw (free, moves, runs, bad) refl,
              failed _ _ _ r bad,
            )
            | inl ok ↦ (
              ret,
              record r { locked = false; state = stopped; bitmap = λ word bit. false; world = w },
              rw (free, moves, runs, ok) refl,
              stepped _ _ _ _ _ r ok (stop-Step r.state live moves),
            )
          ])
  ]

  -- The end of a shutdown, for a remote processor that stands still, under the lock.
  go_offline_lem :
      (w : X) (r : Rproc X)
      → is_live r.state ≡ true
      → is_offline r.state ≡ false
      → (ret : ℤ) × (s : Rproc X) × (go_offline (record r { locked = true; world = w }) ≡ (ret, s))
        × Allowed shuts_down r ret (release s)
        × (s.bitmap ≡ r.bitmap)
  unfolding go_offline
  go_offline_lem w r live on =
      let (ret, w', runs) = called r.ops.shutdown (pos 0) (record r { locked = true; world = w }) in
      elim (Bool-cases (is_success ret)) [
        | inr bad ↦ (
          ret,
          record r { locked = true; world = w' },
          rw (runs, bad) refl,
          failed _ _ _ r bad,
          refl,
        )
        | inl ok ↦ (
          ret,
          record r { locked = true; state = offline; world = w' },
          rw (runs, ok) refl,
          stepped _ _ _ _ _ r ok (end-Step r.state live on),
          refl,
        )
      ]

  ends_still :
      (r s : Rproc X) (ret : ℤ)
      → r.locked ≡ false
      → is_offline r.state ≡ false
      → is_stopped r.state ≡ true
      → go_offline (record r { locked = true }) ≡ (ret, s)
      → shutdown r ≡ some (ret, release s)
  unfolding shutdown
  ends_still r s ret free on still runs = rw (free, on, still, runs) refl

  ends_moving :
      (r s : Rproc X) (ret halted : ℤ) (w : X)
      → r.locked ≡ false
      → is_offline r.state ≡ false
      → is_stopped r.state ≡ false
      → call r.ops.stop (pos 0) (record r { locked = true })
        ≡ (halted, record r { locked = true; world = w })
      → is_success halted ≡ true
      → go_offline (record r { locked = true; world = w }) ≡ (ret, s)
      → shutdown r ≡ some (ret, release s)
  unfolding shutdown
  ends_moving r s ret halted w free on moves halts ok runs =
      rw (free, on, moves, halts, ok, runs) refl

  shutdown_moves :
      (r : Rproc X)
      → r.locked ≡ false
      → is_live r.state ≡ true
      → (ret : ℤ) × (s : Rproc X) × (shutdown r ≡ some (ret, s))
        × Allowed shuts_down r ret s
        × (s.bitmap ≡ r.bitmap)
  unfolding shutdown
  shutdown_moves r free live = elim (Bool-cases (is_offline r.state)) [
    | inl off ↦ (
      pos 0,
      record r { locked = false },
      rw (free, off) refl,
      rested shuts_down r.world r
          (subst (Idle shuts_down) (sym (offline_is r.state off)) stays_down),
      refl,
    )
    | inr on ↦ elim (Bool-cases (is_stopped r.state)) [
      | inl still ↦
          (let (ret, s, runs, allowed, ids) = go_offline_lem r.world r live on in
            (ret, release s, ends_still r s ret free on still runs, allowed, ids))
      | inr moves ↦
          (let (ret, w, halts) = called r.ops.stop (pos 0) (record r { locked = true }) in
            elim (Bool-cases (is_success ret)) [
              | inr bad ↦ (
                ret,
                record r { locked = false; world = w },
                rw (free, on, moves, halts, bad) refl,
                failed _ _ _ r bad,
                refl,
              )
              | inl ok ↦
                  (let (ret', s, runs, allowed, ids) = go_offline_lem w r live on in
                    (
                      ret',
                      release s,
                      ends_moving r s ret' ret w free on moves halts ok runs,
                      allowed,
                      ids,
                    ))
            ])
    ]
  ]

  -- `remoteproc_shutdown` of an unlocked remote processor that is offline, ready, running or stopped
  -- returns, whatever the platform answers. If it succeeds, the remote processor is offline, and if it
  -- fails, in the state that it was in. It is unlocked, with the same operations, and keeps all
  -- notification ids.
  pub shutdown_lem :
      (r : Rproc X)
      → r.locked ≡ false
      → is_live r.state ≡ true
      → (ret : ℤ) × (s : Rproc X) × (shutdown r ≡ some (ret, s))
        × (is_success ret ≡ true → s.state ≡ offline)
        × (is_success ret ≡ false → s.state ≡ r.state)
        × (s.locked ≡ false)
        × (s.ops ≡ r.ops)
        × (s.bitmap ≡ r.bitmap)
  shutdown_lem r free live =
      let (ret, s, runs, allowed, ids) = shutdown_moves r free live in
      (
        ret,
        s,
        runs,
        shut_down ret r.state s.state allowed.moves,
        failed_same shuts_down ret r.state s.state allowed.moves,
        allowed.unlocked,
        allowed.ops_same,
        ids,
      )

  pub invoke_lem :
      (c : Call) (r : Rproc X)
      → r.locked ≡ false
      → is_live r.state ≡ true
      → Outcome c (invoke c r) r
  unfolding invoke
  invoke_lem removes r free live = remove_lem r free
  invoke_lem (configures datum) r free live = config_lem datum r free
  invoke_lem starts r free live = start_lem r free
  invoke_lem stops r free live = stop_lem r free live
  invoke_lem shuts_down r free live =
      let (ret, s, runs, allowed, _) = shutdown_moves r free live in (ret, s, runs, allowed)

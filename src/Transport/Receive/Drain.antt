-- ===== src/Transport/Receive/Drain.antt =====
-- The receive callback on the device's side: it works off all messages that wait.
use mathlib.Core.List.{append-nil, append_assoc, nil≢cons}
use native.Mathlib.Nat.{add-zero}
use openamp_core.Prelude.{
  ℕ, zero, suc, ◌+◌, ◌%◌, ◌<◌, ◌≡◌, ◌≢◌, ◌∙◌, refl, ap, ap₂, sym, subst, Bool, true, false, ◌&&◌,
  ◌||◌, some, List, [], ◌∷◌, ◌++◌, u16, All, arith, inl, inr, Bool-cases,
}
use openamp_core.Vring.{Desc, UsedElem, Vring}
use openamp_core.Virtqueue.Device.Fifo.{Waits, UsedWaits}
use openamp_core.Virtqueue.Pending.{pending}
use openamp_core.Rpmsg.Endpoint.{Device}
use openamp_core.Transport.State.{Rvdev, Env}
use openamp_core.Transport.Buffers.DeviceSide.{Ready, get_rx_buffer-some, get_rx_buffer-none}
use openamp_core.Transport.Receive.{rx_loop, rx_callback}
use openamp_core.Transport.Receive.Deliver.{Behaves}
use openamp_core.Transport.Receive.GiveBack.{kick_rvq_lem}
use openamp_core.Transport.Receive.Round.{receive_lem}

-- What comes back to the driver for the heads of some messages.
abbrev pub returned : Vring → List ℕ → List UsedElem
returned ring [] = []
returned ring (h ∷ heads) = record { id = h; len = (ring.desc h).len } ∷ returned ring heads

returned_cong :
    (a b : Vring) → a.desc ≡ b.desc → (heads : List ℕ) → returned a heads ≡ returned b heads
returned_cong a b e [] = refl
returned_cong a b e (h ∷ heads) =
    ap₂ ◌∷◌ (ap (λ (d : ℕ → Desc). record { id = h; len = (d h).len }) e)
      (returned_cong a b e heads)

module _ {W V : Type 0} (env : Env W V) (debug empty_notify : Bool) (good : Behaves env) where
  -- One round with the first message that waits.
  round_lem :
      (k cons m n h : ℕ) (rest : List ℕ) (elems : List UsedElem) (fuel : ℕ) (before : Bool)
      (r : Rvdev W V)
      → Ready k cons (suc m) n (h ∷ rest) elems r
      → (s : Rvdev W V) × (rx_loop env debug empty_notify (suc fuel) before r
          ≡ rx_loop env debug empty_notify fuel (before || true) s)
        × Ready k cons m
            (suc n)
            rest
            (elems ++ (record { id = h; len = (r.rvq.ring.desc h).len } ∷ []))
            s
        × (s.rvq.ring.desc ≡ r.rvq.ring.desc)
  unfolding rx_loop
  round_lem k cons m n h rest elems fuel before r v =
      let lock : Device W = record r.rdev { locked = true } in
      let (buffer, len, vq, takes, queue, waits, ring, io, size) =
        get_rx_buffer-some env debug k cons m n h rest elems r lock v in
      let got : Rvdev W V = record r { rdev = lock; rvq = vq } in
      let (s, runs, free, back) =
        receive_lem env debug empty_notify good k cons n h len elems buffer got v.role queue
          (subst (λ v. UsedWaits k cons v elems n) (sym ring) v.used) (omega (arith, v.room))
          (omega (arith, v.inside.0, size)) in
      (
        s,
        rw (v.unlocked, takes, runs) refl,
        record {
          role = back.role_same ∙ v.role;
          unlocked = free;
          queue = back.queue;
          waits = record {
            index = subst (λ (a : ℕ). a < u16) (sym back.place) waits.index;
            room = waits.room;
            apart =
                ap (λ x. x.avail_idx) back.ring
                ∙ waits.apart
                ∙ ap (λ (a : ℕ). (a + m) % u16) (sym back.place);
            heads_are =
                ap₂ (λ (ring : ℕ → ℕ) (a : ℕ). pending k ring a m)
                  (ap (λ x. x.avail_ring) back.ring) back.place
                ∙ waits.heads_are;
          };
          used =
              subst
                (λ x.
                  UsedWaits k cons s.rvq.ring
                    (elems ++ (record { id = h; len = (x.desc h).len } ∷ [])) (suc n))
                ring back.used;
          room = omega (arith, v.room);
          inside = subst (λ (t : ℕ). All (λ h. h < t) rest) (sym (back.size ∙ size)) v.inside.1;
          mapped =
              subst (λ x. All (λ h. x.phys_to_virt (s.rvq.ring.desc h).addr ≢ 0) rest)
                (sym (back.io ∙ io))
                (subst (λ d. All (λ h. r.rvq.shm_io.phys_to_virt (d h).addr ≢ 0) rest)
                  (sym (ap (λ x. x.desc) back.ring ∙ ap (λ x. x.desc) ring)) v.mapped.1);
        },
        ap (λ x. x.desc) back.ring ∙ ap (λ x. x.desc) ring,
      )

  -- With no message that waits, the loop ends.
  last_round :
      (k cons n : ℕ) (elems : List UsedElem) (fuel : ℕ) (before : Bool) (r : Rvdev W V)
      → Ready k cons 0 n [] elems r
      → (s : Rvdev W V) × (rx_loop env debug empty_notify (suc fuel) before r ≡ some s)
        × Ready k cons 0 n [] elems s
  unfolding rx_loop
  last_round k cons n elems fuel before r v =
      let lock : Device W = record r.rdev { locked = true } in
      let none_left = get_rx_buffer-none env debug k cons n elems r lock v in
      elim (Bool-cases (empty_notify && before)) [
        | inl kicks ↦
            (let (t, runs, vq, role) =
                kick_rvq_lem env debug (record r { rdev = lock }) v.queue.idle in
              (
                record t { rdev = record t.rdev { locked = false } },
                rw (v.unlocked, none_left, kicks, runs) refl,
                record {
                  role = role ∙ v.role;
                  unlocked = refl;
                  queue = record {
                    size = ap (λ q. q.nentries) vq ∙ v.queue.size;
                    small = v.queue.small;
                    idle = ap (λ q. q.inuse) vq;
                  };
                  waits =
                      subst (λ q. Waits k q [] 0) (sym vq)
                        (record {
                          index = v.waits.index;
                          room = v.waits.room;
                          apart = v.waits.apart;
                          heads_are = refl;
                        });
                  used = subst (λ q. UsedWaits k cons q.ring elems n) (sym vq) v.used;
                  room = v.room;
                  inside = v.inside;
                  mapped = v.mapped;
                },
              ))
        | inr quiet ↦ (
          record r { rdev = record r.rdev { locked = false } },
          rw (v.unlocked, none_left, quiet) refl,
          record {
            role = v.role;
            unlocked = refl;
            queue = v.queue;
            waits = v.waits;
            used = v.used;
            room = v.room;
            inside = v.inside;
            mapped = v.mapped;
          },
        )
      ]

  -- All rounds: the loop ends with nothing left, and every buffer returned once, in order.
  drain_lem :
      (k cons m n : ℕ) (heads : List ℕ) (elems : List UsedElem) (fuel : ℕ) (before : Bool)
      (r : Rvdev W V)
      → Ready k cons m n heads elems r
      → m < fuel
      → (s : Rvdev W V) × (rx_loop env debug empty_notify fuel before r ≡ some s)
        × Ready k cons 0 (n + m) [] (elems ++ returned r.rvq.ring heads) s
  drain_lem k cons m n heads elems zero before r v enough = absurd (omega (arith, enough))
  drain_lem k cons zero n [] elems (suc fuel) before r v enough =
      let (s, runs, ready) = last_round k cons n elems fuel before r v in
      (
        s,
        runs,
        subst (λ es. Ready k cons 0 (n + 0) [] es s) (sym (append-nil elems))
            (subst (λ (t : ℕ). Ready k cons 0 t [] elems s) (sym (add-zero n)) ready),
      )
  drain_lem k cons zero n (h ∷ heads) elems (suc fuel) before r v enough =
      absurd (nil≢cons v.waits.heads_are)
  drain_lem k cons (suc m) n [] elems (suc fuel) before r v enough =
      absurd (nil≢cons (sym v.waits.heads_are))
  drain_lem k cons (suc m) n (h ∷ heads) elems (suc fuel) before r v enough =
      let (s, runs, ready, desc) = round_lem k cons m n h heads elems fuel before r v in
      let elem : UsedElem = record { id = h; len = (r.rvq.ring.desc h).len } in
      let (t, rest, done) =
        drain_lem k cons m (suc n) heads (elems ++ (elem ∷ [])) fuel (before || true) s ready
          (omega (arith, enough)) in
      let all : (elems ++ (elem ∷ [])) ++ returned s.rvq.ring heads
          ≡ elems ++ returned r.rvq.ring (h ∷ heads) =
        append_assoc elems (elem ∷ []) (returned s.rvq.ring heads)
        ∙ ap (λ (es : List UsedElem). elems ++ (elem ∷ es))
            (returned_cong s.rvq.ring r.rvq.ring desc heads) in
      (
        t,
        runs ∙ rest,
        subst (λ (e : ℕ). Ready k cons 0 e [] (elems ++ returned r.rvq.ring (h ∷ heads)) t)
            (omega arith) (subst (λ es. Ready k cons 0 (suc n + m) [] es t) all done),
      )

  -- On the device's side of the receive queue, in a build with VIRTIO_DEVICE_SUPPORT, which virtio.h
  -- switches off: with `m` messages that wait, whose buffers are mapped, and callbacks of the
  -- endpoints that succeed and neither touch the receive queue nor hold or release their buffer, the
  -- callback of the queue returns: `m + 1` rounds are enough. Then no message waits, the lock is free,
  -- and the driver gets the buffer of every message back, once, in the order of the messages and
  -- behind what it has not taken yet.
  pub rx_callback-drains :
      (k cons m n : ℕ) (heads : List ℕ) (elems : List UsedElem) (fuel : ℕ) (r : Rvdev W V)
      → Ready k cons m n heads elems r
      → m < fuel
      → (s : Rvdev W V) × (rx_callback env debug empty_notify fuel r ≡ some s)
        × Ready k cons 0 (n + m) [] (elems ++ returned r.rvq.ring heads) s
  unfolding rx_callback
  rx_callback-drains k cons m n heads elems fuel r v enough =
      drain_lem k cons m n heads elems fuel false r v enough

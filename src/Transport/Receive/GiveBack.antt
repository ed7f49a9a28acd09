-- ===== src/Transport/Receive/GiveBack.antt =====
-- The end of a round of the receive callback: the buffer goes back.
use openamp_core.Prelude.{
  ℕ, suc, ◌+◌, ◌^◌, ◌<◌, ◌≡◌, ◌∙◌, refl, ap, sym, subst, Bool, true, false, some, List, [], ◌∷◌,
  ◌++◌, ◌*◌, if◌then◌else◌, update_self, u16, pow-le-u15, arith, inl, inr, Bool-cases,
}
use openamp_core.Vring.{UsedElem}
use openamp_core.Virtqueue.State.{device, Ptr}
use openamp_core.Virtqueue.Device.Fifo.{IsDevice, UsedWaits}
use openamp_core.Virtqueue.Interrupts.Notify.{kick_idle}
use openamp_core.Virtio.Device.{VirtioDevice}
use openamp_core.Transport.Header.{held_inc, held_dec_test}
use openamp_core.Transport.Header.Counter.{held_inc_lem, held_dec_test_lem}
use openamp_core.Transport.State.{Rvdev, Env, set_reserved, kick_queue, kick_rvq}
use openamp_core.Transport.Buffers.DeviceSide.{Returned, release_lem}
use openamp_core.Transport.Receive.{give_back}

held_once : (h : ℕ) → h < 32768 → held_dec_test (held_inc h) ≡ (true, h)
held_once h small =
    ap held_dec_test (ap held_inc none ∙ held_inc_lem 0 h (omega arith) (omega arith))
    ∙ held_dec_test_lem 0 h (omega arith) (omega arith)
    ∙ ap (λ (t : ℕ). (true, t)) (omega arith)
  where
    none : h ≡ 0 * u16 + h
    none = omega arith

module _ {W V : Type 0} (env : Env W V) (debug : Bool) where
  pub kick_rvq_lem :
      (r : Rvdev W V)
      → r.rvq.inuse ≡ false
      → (s : Rvdev W V) × (kick_rvq env debug r ≡ some s)
        × (s.rvq ≡ record r.rvq { queued_cnt = 0; inuse = false })
        × (s.vdev.role ≡ r.vdev.role)
  unfolding kick_queue
  kick_rvq_lem r idle =
      let (notified, kicks) = kick_idle debug r.rvq idle in
      let vq = record r.rvq { queued_cnt = 0; inuse = false } in
      let vdev : Bool → VirtioDevice V = λ b.
        if b then record r.vdev { world = env.notify r.vdev.world r.rvq.queue_index } else r.vdev in
      (
        record r { vdev = vdev notified; rvq = vq },
        rw kicks refl,
        refl,
        elim (Bool-cases notified) [ inl yes_ ↦ rw yes_ refl | inr no_ ↦ rw no_ refl ],
      )

module _ {W V : Type 0} (env : Env W V) (debug empty_notify : Bool) where
  pub give_back_lem :
      (k cons n h : ℕ) (elems : List UsedElem) (r : Rvdev W V) (hdr : Ptr)
      → r.vdev.role ≡ device
      → IsDevice k r.rvq
      → UsedWaits k cons r.rvq.ring elems n
      → n < 2 ^ k
      → h < r.rvq.nentries
      → (r.hdr hdr).reserved ≡ held_inc h
      → (s : Rvdev W V) × (give_back env debug empty_notify r hdr ≡ some (true, s))
        × Returned env debug k cons n h elems r s
  unfolding give_back
  give_back_lem k cons n h elems r hdr role q used room inside at =
      let counted : Rvdev W V = set_reserved r hdr h in
      let (s, runs, back) =
        release_lem env debug k cons n h elems counted hdr role q used room inside
          (ap (λ x. x.reserved) (update_self r.hdr hdr (record (r.hdr hdr) { reserved = h }))) in
      let test : held_dec_test (r.hdr hdr).reserved ≡ (true, h) =
        ap held_dec_test at ∙ held_once h (omega (arith, inside, pow-le-u15 k q.small, q.size)) in
      let (t, kicks, vq, role') = kick_rvq_lem env debug s back.queue.idle in
      elim (Bool-cases empty_notify) [
        | inl silent ↦ (
          s,
          rw (test, runs, silent) refl,
          record {
            role_same = back.role_same;
            queue = back.queue;
            used = back.used;
            place = back.place;
            io = back.io;
            size = back.size;
            ring = back.ring;
          },
        )
        | inr loud ↦ (
          t,
          rw (test, runs, loud, kicks) refl,
          record {
            role_same = role' ∙ back.role_same;
            queue = record {
              size = ap (λ q. q.nentries) vq ∙ back.queue.size;
              small = q.small;
              idle = ap (λ q. q.inuse) vq;
            };
            used =
                subst
                  (λ q.
                    UsedWaits k cons q.ring
                      (elems ++ (record { id = h; len = (r.rvq.ring.desc h).len } ∷ [])) (suc n))
                  (sym vq) back.used;
            place = ap (λ q. q.available_idx) vq ∙ back.place;
            io = ap (λ q. q.shm_io) vq ∙ back.io;
            size = ap (λ q. q.nentries) vq ∙ back.size;
            ring =
                subst
                  (λ q. q.ring ≡ record r.rvq.ring {
                    used_ring = q.ring.used_ring;
                    used_idx = q.ring.used_idx;
                  })
                  (sym vq) back.ring;
          },
        )
      ]

  -- What is returned depends on the receive queue and the role only.
  pub from_same :
      (k cons n h : ℕ) (elems : List UsedElem) (q r s : Rvdev W V)
      → q.rvq ≡ r.rvq
      → q.vdev.role ≡ r.vdev.role
      → Returned env debug k cons n h elems q s
      → Returned env debug k cons n h elems r s
  from_same k cons n h elems q r s same role back = record {
    role_same = back.role_same ∙ role;
    queue = back.queue;
    used =
        subst
          (λ v.
            UsedWaits k cons s.rvq.ring
              (elems ++ (record { id = h; len = (v.ring.desc h).len } ∷ [])) (suc n))
          same back.used;
    place = back.place ∙ ap (λ v. v.available_idx) same;
    io = back.io ∙ ap (λ v. v.shm_io) same;
    size = back.size ∙ ap (λ v. v.nentries) same;
    ring =
        back.ring
        ∙ ap
            (λ v. record v.ring {
              used_ring = s.rvq.ring.used_ring;
              used_idx = s.rvq.ring.used_idx;
            })
            same;
  }

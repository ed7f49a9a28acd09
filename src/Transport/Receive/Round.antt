-- ===== src/Transport/Receive/Round.antt =====
-- A round of the receive callback that gets a buffer.
use openamp_core.Prelude.{
  ℕ, ◌^◌, ◌<◌, ◌≡◌, ◌∙◌, refl, ap, sym, subst, Bool, true, false, some, List, update_self, arith,
}
use openamp_core.Vring.{UsedElem}
use openamp_core.Virtqueue.State.{device, Ptr}
use openamp_core.Virtqueue.Device.Fifo.{IsDevice, UsedWaits}
use openamp_core.Rpmsg.Endpoint.{ept_incref, ept_decref}
use openamp_core.Transport.Header.{held_inc}
use openamp_core.Transport.State.{Rvdev, Env, set_reserved}
use openamp_core.Transport.Buffers.DeviceSide.{Returned}
use openamp_core.Transport.Receive.{ept_from_addr, receive}
use openamp_core.Transport.Receive.Deliver.{Behaves, deliver_lem}
use openamp_core.Transport.Receive.GiveBack.{give_back_lem, from_same}

module _ {W V : Type 0} (env : Env W V) (debug empty_notify : Bool) (good : Behaves env) where
  -- A round with a buffer returns it.
  pub receive_lem :
      (k cons n h len : ℕ) (elems : List UsedElem) (buffer : Ptr) (r : Rvdev W V)
      → r.vdev.role ≡ device
      → IsDevice k r.rvq
      → UsedWaits k cons r.rvq.ring elems n
      → n < 2 ^ k
      → h < r.rvq.nentries
      → (s : Rvdev W V) × (receive env debug empty_notify r
            (record { buffer = buffer; len = len; idx = h })
          ≡ some (true, s))
        × (s.rdev.locked ≡ false)
        × Returned env debug k cons n h elems r s
  unfolding receive
  receive_lem k cons n h len elems buffer r role q used room inside =
      let ept = ept_from_addr env debug empty_notify r (r.hdr buffer).dst in
      let held : Rvdev W V = set_reserved r buffer (held_inc h) in
      let shared : Rvdev W V = record held {
        rdev = record (ept_incref held.rdev ept) { locked = false };
      } in
      let (d, runs, same) = deliver_lem env debug empty_notify good shared ept buffer refl in
      let again : Rvdev W V = record d {
        rdev = ept_decref (record d.rdev { locked = true }) ept;
      } in
      let at : (d.hdr buffer).reserved ≡ held_inc h =
        same.held_same
        ∙ ap (λ x. x.reserved)
            (update_self r.hdr buffer (record (r.hdr buffer) { reserved = held_inc h })) in
      let (s, back, done) =
        give_back_lem env debug empty_notify k cons n h elems again buffer (same.role_same ∙ role)
          (subst (IsDevice k) (sym same.rvq_same) q)
          (subst (λ v. UsedWaits k cons v.ring elems n) (sym same.rvq_same) used) room
          (omega (arith, inside, ap (λ v. v.nentries) same.rvq_same)) at in
      let all =
        from_same env debug empty_notify k cons n h elems again r s same.rvq_same same.role_same
          done in
      (
        record s { rdev = record s.rdev { locked = false } },
        rw (runs, same.unlocked, back) refl,
        refl,
        record {
          role_same = all.role_same;
          queue = all.queue;
          used = all.used;
          place = all.place;
          io = all.io;
          size = all.size;
          ring = all.ring;
        },
      )

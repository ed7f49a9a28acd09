-- ===== src/Transport/Receive/Deliver.antt =====
-- A message is delivered: what the receive queue keeps through the endpoint's callback.
use openamp_core.Prelude.{
  ℕ, ◌≡◌, ◌∙◌, refl, Bool, false, some, ℤ, is_negative, ◌==◌, inl, inr, Bool-cases,
}
use openamp_core.Virtqueue.State.{Ptr}
use openamp_core.Rpmsg.Address.{rpmsg_addr_any}
use openamp_core.Transport.State.{Rvdev, Env, locate_data}
use openamp_core.Transport.Receive.{greet, deliver}

-- `s` has the receive queue, the role, the open lock and the holders of the buffer at `hdr` of `r`.
pub record Same {W V : Type 0} (r s : Rvdev W V) (hdr : Ptr) : Type 0 where
  pub rvq_same : s.rvq ≡ r.rvq
  pub held_same : (s.hdr hdr).reserved ≡ (r.hdr hdr).reserved
  pub role_same : s.vdev.role ≡ r.vdev.role
  pub unlocked : s.rdev.locked ≡ false

-- The callbacks of endpoints succeed, leave the receive queue alone, and neither hold nor release the
-- buffer that they get. They may send.
pub record Behaves {W V : Type 0} (env : Env W V) : Type 0 where
  pub returns :
      (cb : Ptr) (r : Rvdev W V) (ept hdr : Ptr) (len src : ℕ) (priv : Ptr)
      → r.rdev.locked ≡ false
      → (status : ℤ) × (s : Rvdev W V) × (env.ept_cb cb r ept (locate_data hdr) len src priv
          ≡ some (status, s))
        × (is_negative status ≡ false)
        × Same r s hdr

module _ {W V : Type 0} (env : Env W V) (debug empty_notify : Bool) (good : Behaves env) where
  greet-Same :
      (r : Rvdev W V) (ept hdr : Ptr)
      → r.rdev.locked ≡ false
      → Same r (greet env debug empty_notify r ept hdr) hdr
  unfolding greet
  greet-Same r ept hdr free = elim (Bool-cases ((r.rdev.ept ept).dest_addr == rpmsg_addr_any)) [
    | inl new ↦
        rw new (record { rvq_same = refl; held_same = refl; role_same = refl; unlocked = free })
    | inr old ↦
        rw old (record { rvq_same = refl; held_same = refl; role_same = refl; unlocked = free })
  ]

  pub deliver_lem :
      (r : Rvdev W V) (ept hdr : Ptr)
      → r.rdev.locked ≡ false
      → (s : Rvdev W V) × (deliver env debug empty_notify r ept hdr ≡ some s) × Same r s hdr
  unfolding deliver
  deliver_lem r ept hdr free = elim (Bool-cases (ept == 0)) [
    | inl null ↦ (
      r,
      rw null refl,
      record { rvq_same = refl; held_same = refl; role_same = refl; unlocked = free },
    )
    | inr bound ↦
        (let greeted = greet-Same r ept hdr free in
          let e = r.rdev.ept ept in
          let h = r.hdr hdr in
          let (status, s, runs, fine, same) =
            good.returns e.cb (greet env debug empty_notify r ept hdr) ept hdr h.len h.src e.priv
              greeted.unlocked in
          (
            s,
            rw (bound, runs, fine) refl,
            record {
              rvq_same = same.rvq_same ∙ greeted.rvq_same;
              held_same = same.held_same ∙ greeted.held_same;
              role_same = same.role_same ∙ greeted.role_same;
              unlocked = same.unlocked;
            },
          ))
  ]

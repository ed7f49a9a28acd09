-- ===== src/Transport/Init/Teardown.antt =====
-- `rpmsg_deinit_vdev` comes to an end.
use openamp_core.Prelude.{
  ℕ, zero, suc, ◌<◌, ◌≡◌, refl, ap, ◌∙◌, Bool, Option, some, List, [], ◌∷◌, length, count, ==_refl,
  ◌>>=◌, arith,
}
use openamp_core.Virtqueue.State.{Ptr}
use openamp_core.Virtio.Device.{delete_virtqueues}
use openamp_core.Rpmsg.Endpoint.{Device, remove, destroy_ept}
use openamp_core.Rpmsg.Endpoint.Unregister.{IsValid}
use openamp_core.Rpmsg.Endpoint.Destroy.{destroy_ept-IsValid}
use openamp_core.Transport.State.{Rvdev, Env}
use openamp_core.Transport.Init.{destroy_all, deinit_vdev}

module _ {W V : Type 0} (env : Env W V) (debug : Bool) where
  -- A round destroys the first endpoint of the list.
  destroy_all_round :
      (fuel : ℕ) (d next : Device W) (p : Ptr) (ps : List Ptr)
      → d.endpoints ≡ p ∷ ps
      → destroy_ept d p ≡ some next
      → destroy_all env debug (suc fuel) d ≡ destroy_all env debug fuel next
  unfolding destroy_all
  destroy_all_round fuel d next p ps e runs =
      ap
        (λ (es : List Ptr). elim es [
          | [] ↦ some d
          | q ∷ qs ↦ (destroy_ept d q >>= λ left. destroy_all env debug fuel left)
        ])
        e
      ∙ ap (λ (x : Option (Device W)). x >>= λ left. destroy_all env debug fuel left) runs

  destroy_all_lem :
      (ps : List Ptr) (fuel : ℕ) (d : Device W)
      → IsValid d
      → d.endpoints ≡ ps
      → length ps < fuel
      → (d' : Device W) × (destroy_all env debug fuel d ≡ some d')
        × IsValid d'
        × (d'.endpoints ≡ [])
  unfolding destroy_all
  destroy_all_lem ps zero d v e enough = absurd (omega (arith, enough))
  destroy_all_lem [] (suc fuel) d v e enough = (d, rw e refl, v, e)
  destroy_all_lem (p ∷ ps) (suc fuel) d v e enough =
      let first : 0 < count p d.endpoints = rw e (ground arith) in
      let (next, runs, valid, left, _) = destroy_ept-IsValid d p v first in
      let shorter : next.endpoints ≡ ps = left ∙ ap (remove p) e ∙ rw (==_refl p) refl in
      let (d', rest, valid', gone) =
        destroy_all_lem ps fuel next valid shorter (omega (arith, enough)) in
      (d', destroy_all_round fuel d next p ps e runs ∙ rest, valid', gone)

  -- Taking a device with valid endpoints down returns, whatever the transport answers to the
  -- announcements: one round for each endpoint and one more are enough. Then no endpoint is
  -- registered, and the endpoints' part of the device is valid.
  pub deinit_vdev-returns :
      (fuel : ℕ) (r : Rvdev W V)
      → IsValid r.rdev
      → length r.rdev.endpoints < fuel
      → (s : Rvdev W V) × (deinit_vdev env debug fuel r ≡ some s)
        × (s.rdev.endpoints ≡ [])
        × IsValid s.rdev
        × (s.vdev ≡ delete_virtqueues r.vdev)
  unfolding deinit_vdev
  deinit_vdev-returns fuel r v enough =
      let (d, runs, valid, gone) = destroy_all_lem r.rdev.endpoints fuel r.rdev v refl enough in
      (record r { rdev = d; vdev = delete_virtqueues r.vdev }, rw runs refl, gone, valid, refl)

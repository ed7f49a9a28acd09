-- ===== src/Rpmsg/Endpoint/Unregister.antt =====
-- What `rpmsg_unregister_endpoint` leaves behind.
use openamp_core.Prelude.{
  ℕ, ◌+◌, ◌-◌, ◌%◌, ◌<◌, ◌≡◌, ◌≢◌, refl, ap, true, false, Option, none, some, count, ◌==◌, ==_of_ne,
  lt→ltb, update, u32, arith, inl, inr, Bool-cases,
}
use openamp_core.Bitmap.{is_bit_set}
use openamp_core.Rpmsg.Address.{rpmsg_addr_any}
use openamp_core.Rpmsg.Address.Laws.{release_address-frees}
use openamp_core.Rpmsg.Endpoint.{
  Ptr, Endpoint, Device, remove, mutex_release, ept_last, ept_decref, unregister_endpoint,
}
use openamp_core.Rpmsg.Endpoint.Table.{Table, mem-count, remove-Table}

-- A device between two operations.
pub record IsValid {W : Type 0} (d : Device W) : Type 0 where
  pub unlocked : d.locked ≡ false
  pub table : Table d.ept d.endpoints d.bitmap
  pub next_in : d.bitnext < 128

module _ {W : Type 0} where
  ept_decref_lem :
      (d : Device W) (p : Ptr)
      → p ≢ 0
      → (e : Endpoint W) × (w : W) × (ept_decref d p
          ≡ record d { ept = update d.ept p e; world = w })
  unfolding ept_decref
  ept_decref_lem d p n = elim (Bool-cases (refcnt == 0)) [
    | inl last ↦ ended last (d.ept p).release_cb refl
    | inr more ↦ (record (d.ept p) { refcnt = refcnt }, d.world, rw (==_of_ne p 0 n, more) refl)
  ]
    where
      refcnt : ℕ
      refcnt = ((d.ept p).refcnt + (u32 - 1)) % u32

      ended :
          (refcnt == 0) ≡ true
          → (r : Option (Ptr → W → W)) → (d.ept p).release_cb ≡ r
          → (e : Endpoint W) × (w : W) × (ept_decref d p
              ≡ record d { ept = update d.ept p e; world = w })
      ended last (some release_cb) at = (
        record (d.ept p) { refcnt = refcnt },
        release_cb p d.world,
        rw (==_of_ne p 0 n, last) (ap (ept_last d p refcnt) at),
      )
      ended last none at = (
        record (d.ept p) { refcnt = refcnt; rdev = false },
        d.world,
        rw (==_of_ne p 0 n, last) (ap (ept_last d p refcnt) at),
      )

  -- Taking a registered endpoint off a valid device succeeds: it is no longer registered, its
  -- address is free, nothing else changes and the lock is free.
  pub unregister_endpoint-IsValid :
      (d : Device W) (p : Ptr)
      → IsValid d
      → 0 < count p d.endpoints
      → (d' : Device W) × (unregister_endpoint d p ≡ some d')
        × IsValid d'
        × (d'.endpoints ≡ remove p d.endpoints)
        × ((c : ℕ) → (d.ept p).addr ≢ 1024 + c → is_bit_set d'.bitmap c ≡ is_bit_set d.bitmap c)
        × ((c : ℕ) → (d.ept p).addr ≡ 1024 + c → is_bit_set d'.bitmap c ≡ false)
  unfolding unregister_endpoint
  unregister_endpoint-IsValid d p v h =
      let (after, released, others, freed) =
        release_address-frees d.bitmap (d.ept p).addr (v.table.low p h) in
      let unlinked : Device W = record d {
        locked = true;
        bitmap = after;
        endpoints = remove p d.endpoints;
      } in
      let (e, w, counted) = ept_decref_lem unlinked p (v.table.valid p h) in
      (
        mutex_release (record unlinked { ept = update d.ept p e; world = w }),
        rw
            (
              v.table.bound p h,
              v.unlocked,
              ==_of_ne (d.ept p).addr rpmsg_addr_any (omega (arith, v.table.low p h)),
              released,
              mem-count p d.endpoints,
              lt→ltb 0 (count p d.endpoints) h,
            )
            (ap (λ x. some (mutex_release x)) counted),
        record {
          unlocked = refl;
          table = remove-Table d.ept d.endpoints d.bitmap v.table p e after others h;
          next_in = v.next_in;
        },
        refl,
        others,
        freed,
      )

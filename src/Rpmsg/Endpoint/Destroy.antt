-- ===== src/Rpmsg/Endpoint/Destroy.antt =====
-- `rpmsg_destroy_ept` and the search for an endpoint by its address.
use openamp_core.Prelude.{
  ℕ, ◌+◌, ◌<◌, ◌≤◌, ◌≡◌, ◌≢◌, refl, ap, sym, Bool, true, false, not, ◌&&◌, none, some, ℤ, List, [],
  ◌∷◌, count, leb, ◌==◌, ==_of_ne, ==_iff, if◌then◌else◌, arith, inl, inr, equal_or_not,
}
use openamp_core.Bitmap.{is_bit_set}
use openamp_core.Utilities.{Chars}
use openamp_core.Rpmsg.Address.{rpmsg_success, rpmsg_addr_any, rpmsg_reserved_addresses}
use openamp_core.Rpmsg.Endpoint.{
  Ptr, Device, ns_destroy, remove, send_ns_message, destroy_ept, find_endpoint, get_endpoint,
}
use openamp_core.Rpmsg.Endpoint.Unregister.{IsValid, unregister_endpoint-IsValid}
use openamp_core.Rpmsg.Endpoint.Announce.{send_ns_message_lem}

module _ {W : Type 0} where
  farewell :
      (d : Device W) (p : Ptr) (b : Bool)
      → (ret : ℤ) × (w : W) × ((if b
            then send_ns_message d p ns_destroy
            else some (rpmsg_success, d))
          ≡ some (ret, record d { world = w }))
  farewell d p true = send_ns_message_lem d p ns_destroy
  farewell d p false = (rpmsg_success, d.world, refl)

  -- Destroying a registered endpoint of a valid device returns with a valid device, whatever the
  -- transport answers to the announcement: the endpoint is not registered and its address is free.
  pub destroy_ept-IsValid :
      (d : Device W) (p : Ptr)
      → IsValid d
      → 0 < count p d.endpoints
      → (d' : Device W) × (destroy_ept d p ≡ some d')
        × IsValid d'
        × (d'.endpoints ≡ remove p d.endpoints)
        × ((c : ℕ) → (d.ept p).addr ≡ 1024 + c → is_bit_set d'.bitmap c ≡ false)
  unfolding destroy_ept
  destroy_ept-IsValid d p v h =
      let due : Bool =
        not ((d.ept p).name 0 == 0)
        && d.support_ns
        && leb rpmsg_reserved_addresses (d.ept p).addr in
      let (ret, w, sent) = farewell d p due in
      let told : Device W = record d { world = w } in
      let told_valid : IsValid told = record {
        unlocked = v.unlocked;
        table = v.table;
        next_in = v.next_in;
      } in
      let (d', runs, valid, gone, _, freed) = unregister_endpoint-IsValid told p told_valid h in
      (d', rw (==_of_ne p 0 (v.table.valid p h), v.table.bound p h, sent) runs, valid, gone, freed)

  find_endpoint_lem :
      (differ : Chars → Chars → Bool) (d : Device W) (p : Ptr) (xs : List Ptr)
      → (d.ept p).addr ≢ rpmsg_addr_any
      → ((q : Ptr) → 0 < count q xs → (d.ept q).addr ≡ (d.ept p).addr → q ≡ p)
      → 0 < count p xs
      → find_endpoint differ d none (d.ept p).addr rpmsg_addr_any xs ≡ some p
  unfolding find_endpoint
  find_endpoint_lem differ d p [] known only h = absurd (omega arith)
  find_endpoint_lem differ d p (x ∷ xs) known only h =
      elim (equal_or_not (d.ept x).addr (d.ept p).addr) [
        | inl s ↦
            rw
              (
                ==_of_ne (d.ept p).addr rpmsg_addr_any known,
                (==_iff (d.ept x).addr (d.ept p).addr).1 s,
              )
              (ap (λ (t : Ptr). some t) (only x (ground arith) s))
        | inr n ↦
            rw
              (
                ==_of_ne (d.ept p).addr rpmsg_addr_any known,
                ==_of_ne (d.ept x).addr (d.ept p).addr n,
              )
              (find_endpoint_lem differ d p xs known (λ q k. only q (omega arith)) (behind n))
      ]
    where
      behind : (d.ept x).addr ≢ (d.ept p).addr → 0 < count p xs
      behind n = elim (equal_or_not x p) [
        | inl s ↦ absurd (n (ap (λ q. (d.ept q).addr) s))
        | inr m ↦ ground arith
      ]

  -- A registered endpoint of a valid device with an address of at least 1024 is what the search by its
  -- local address, without a name, finds.
  pub get_endpoint_lem :
      (differ : Chars → Chars → Bool) (d : Device W) (p : Ptr)
      → IsValid d
      → 0 < count p d.endpoints
      → 1024 ≤ (d.ept p).addr
      → get_endpoint differ d none (d.ept p).addr rpmsg_addr_any ≡ some p
  unfolding get_endpoint
  get_endpoint_lem differ d p v h l =
      find_endpoint_lem differ d p d.endpoints (omega (arith, v.table.low p h))
        (λ q k s. sym (v.table.distinct p q h k l (sym s))) h

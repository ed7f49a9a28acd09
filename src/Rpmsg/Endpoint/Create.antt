-- ===== src/Rpmsg/Endpoint/Create.antt =====
-- `rpmsg_create_ept` with an address of its own choice.
use native.Mathlib.Nat.{mod-lt}
use openamp_core.Prelude.{
  ℕ, ◌+◌, ◌%◌, ◌<◌, ◌≡◌, ◌≢◌, ◌⊎◌, ◌∙◌, refl, ap, true, false, not, Option, none, some, ℤ,
  is_success, [], ◌∷◌, ◌++◌, count, count-append, ◌==◌, ==_of_ne, update, update_self, u32, arith,
  inl, inr, Bool-cases,
}
use openamp_core.Bitmap.{set_bit, is_bit_set}
use openamp_core.Utilities.{Chars}
use openamp_core.Utilities.Strcpy.{safe_strcpy-copies}
use openamp_core.Rpmsg.Address.{get_address, rpmsg_success, rpmsg_addr_any}
use openamp_core.Rpmsg.Address.Laws.{get_address-fresh, get_address-full}
use openamp_core.Rpmsg.Endpoint.{
  Ptr, Endpoint, Device, remove, filled_ept, register_endpoint, choose_address, announce,
  create_ept,
}
use openamp_core.Rpmsg.Endpoint.Table.{add-Table, mem-count}
use openamp_core.Rpmsg.Endpoint.Unregister.{IsValid}
use openamp_core.Rpmsg.Endpoint.Announce.{announce-IsValid}

module _ {W : Type 0} where
  register_endpoint_lem :
      (d : Device W) (p : Ptr) (name : Option Chars) (src dest : ℕ) (cb unbind_cb priv : Ptr)
      → count p d.endpoints ≡ 0
      → (e : Endpoint W) × (register_endpoint d p name src dest cb unbind_cb priv
          ≡ some (record d { ept = update d.ept p e; endpoints = d.endpoints ++ (p ∷ []) }))
        × (e.addr ≡ src)
        × (e.rdev ≡ true)
        × (e.dest_addr ≡ dest)
  unfolding register_endpoint
  register_endpoint_lem d p (some s) src dest cb unbind_cb priv fresh =
      let (n, out, copied) =
        safe_strcpy-copies (d.ept p).name s 32 32 (omega arith) (omega arith) in
      (
        filled_ept (d.ept p) out src dest cb unbind_cb priv,
        rw (copied, mem-count p d.endpoints, fresh) refl,
        refl,
        refl,
        refl,
      )
  register_endpoint_lem d p none src dest cb unbind_cb priv fresh = (
    filled_ept (d.ept p) (update (d.ept p).name 0 0) src dest cb unbind_cb priv,
    rw (mem-count p d.endpoints, fresh) refl,
    refl,
    refl,
    refl,
  )

  -- The device with the endpoint registered at address `1024 + n`.
  abbrev added : Device W → (p : Ptr) → Endpoint W → (n : ℕ) → Device W
  added d p e n = record d {
    ept = update d.ept p e;
    endpoints = d.endpoints ++ (p ∷ []);
    bitmap = set_bit d.bitmap n;
    bitnext = (1024 + n + 1) % u32 % 128;
  }

  -- The code up to the announcement, for the address that the search of the bitmap found.
  registers :
      (d : Device W) (p : Ptr) (name : Option Chars) (dest : ℕ) (cb unbind_cb : Ptr)
      → d.locked ≡ false
      → p ≢ 0
      → cb ≢ 0
      → count p d.endpoints ≡ 0
      → (n : ℕ) → n < 128
      → get_address d.bitmap d.bitnext 128 ≡ some (1024 + n, set_bit d.bitmap n)
      → (e : Endpoint W) × (create_ept d p name rpmsg_addr_any dest cb unbind_cb
          ≡ announce (added d p e n) p)
        × (e.addr ≡ 1024 + n)
        × (e.rdev ≡ true)
        × (e.dest_addr ≡ dest)
  unfolding create_ept choose_address
  registers d p name dest cb unbind_cb unlocked nonnull has_cb fresh n low found =
      let held : Device W = record d {
        locked = true;
        bitmap = set_bit d.bitmap n;
        bitnext = (1024 + n + 1) % u32 % 128;
      } in
      let (e, registered, at, bound, dest_at) =
        register_endpoint_lem held p name (1024 + n) dest cb unbind_cb (d.ept p).priv fresh in
      (
        e,
        rw
            (
              ==_of_ne p 0 nonnull,
              ==_of_ne cb 0 has_cb,
              unlocked,
              found,
              ==_of_ne (1024 + n) rpmsg_addr_any (omega arith),
              registered,
            )
            refl,
        at,
        bound,
        dest_at,
      )

  module _ (d : Device W) (p : Ptr) (name : Option Chars) (dest : ℕ) (cb unbind_cb : Ptr)
      (v : IsValid d) (nonnull : p ≢ 0) (has_cb : cb ≢ 0) (fresh : count p d.endpoints ≡ 0) where
    -- With a free address in the bitmap, `rpmsg_create_ept` for RPMSG_ADDR_ANY, a callback and an
    -- endpoint that is not registered returns with a valid device, whatever the transport answers.
    -- Either it succeeds and the endpoint is registered at an address that was free, or the
    -- announcement failed, and then the endpoint is not registered and the address is free again.
    pub create_ept-IsValid :
        (b : ℕ)
        → b < 128
        → is_bit_set d.bitmap b ≡ false
        → (status : ℤ) × (d' : Device W) × (n : ℕ) × (create_ept d p name rpmsg_addr_any dest cb
              unbind_cb
            ≡ some (status, d'))
          × IsValid d'
          × n < 128
          × (is_bit_set d.bitmap n ≡ false)
          × (((is_success status ≡ true)
                × (d'.endpoints ≡ d.endpoints ++ (p ∷ []))
                × ((d'.ept p).addr ≡ 1024 + n)
                × ((d'.ept p).dest_addr ≡ dest))
              ⊎ ((is_success status ≡ false)
                  × (d'.endpoints ≡ remove p (d.endpoints ++ (p ∷ [])))
                  × (is_bit_set d'.bitmap n ≡ false)))
    create_ept-IsValid b h free =
        let (n, found, low, clear) =
          get_address-fresh d.bitmap d.bitnext 128 (omega arith) (omega (arith, v.next_in)) b h
            free in
        let (e, creates, at, bound, dest_at) =
          registers d p name dest cb unbind_cb v.unlocked nonnull has_cb fresh n low found in
        let here : (added d p e n).ept p ≡ e = update_self d.ept p e in
        let (status, d', announced, valid, outcome) =
          announce-IsValid (added d p e n) p (added_valid e n low clear at bound)
            (ground (arith, count-append p d.endpoints (p ∷ []))) in
        (
          status,
          d',
          n,
          creates ∙ announced,
          valid,
          low,
          clear,
          elim outcome [
            | inl (good, w, same) ↦ inl (
              good,
              ap (λ x. x.endpoints) same,
              ap (λ x. (x.ept p).addr) same ∙ ap (λ x. x.addr) here ∙ at,
              ap (λ x. (x.ept p).dest_addr) same ∙ ap (λ x. x.dest_addr) here ∙ dest_at,
            )
            | inr (bad, gone, freed) ↦ inr (bad, gone, freed n (ap (λ x. x.addr) here ∙ at))
          ],
        )
      where
        added_valid :
            (e : Endpoint W) (n : ℕ)
            → n < 128
            → is_bit_set d.bitmap n ≡ false
            → e.addr ≡ 1024 + n
            → e.rdev ≡ true
            → IsValid (added d p e n)
        added_valid e n low clear at bound = record {
          unlocked = v.unlocked;
          table =
              add-Table d.ept d.endpoints d.bitmap v.table p e fresh nonnull bound n at low clear;
          next_in = mod-lt ((1024 + n + 1) % u32) (omega arith);
        }

  silent : (d : Device W) (p : Ptr) → d.support_ns ≡ false → announce d p ≡ some (rpmsg_success, d)
  unfolding announce
  silent d p off = elim (Bool-cases (not ((d.ept p).name 0 == 0))) [
    | inl named ↦ rw (named, off) refl
    | inr unnamed ↦ rw (unnamed, off) refl
  ]

  -- On a valid device with all 128 addresses of the bitmap in use and no announcements,
  -- `rpmsg_create_ept` for RPMSG_ADDR_ANY, a callback and an endpoint that is not NULL and not
  -- registered succeeds, with an address that is in use.
  pub create_ept-full :
      (d : Device W) (p : Ptr) (name : Option Chars) (dest : ℕ) (cb unbind_cb : Ptr)
      → IsValid d
      → p ≢ 0
      → cb ≢ 0
      → count p d.endpoints ≡ 0
      → d.support_ns ≡ false
      → ((b : ℕ) → b < 128 → is_bit_set d.bitmap b ≡ true)
      → (d' : Device W) × (create_ept d p name rpmsg_addr_any dest cb unbind_cb
          ≡ some (rpmsg_success, d'))
        × (d'.endpoints ≡ d.endpoints ++ (p ∷ []))
        × ((d'.ept p).addr ≡ 1024 + d.bitnext % 128)
        × (is_bit_set d.bitmap (d.bitnext % 128) ≡ true)
  create_ept-full d p name dest cb unbind_cb v nonnull has_cb fresh off used =
      let n = d.bitnext % 128 in
      let low : n < 128 = mod-lt d.bitnext (omega arith) in
      let (e, creates, at, _, _) =
        registers d p name dest cb unbind_cb v.unlocked nonnull has_cb fresh n low
          (get_address-full d.bitmap d.bitnext 128 (omega arith) (omega (arith, v.next_in)) used) in
      (
        added d p e n,
        creates ∙ silent (added d p e n) p off,
        refl,
        ap (λ x. x.addr) (update_self d.ept p e) ∙ at,
        used n low,
      )

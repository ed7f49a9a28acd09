-- ===== src/Rpmsg/Endpoint.antt =====
-- The endpoints of a device: rpmsg/rpmsg.c. The structures are in `State`, whose names this file
-- passes on.
pub mod State
pub mod Table
pub mod Unregister
pub mod Announce
pub mod Create
pub mod Destroy
pub use State.*
use openamp_core.Prelude.{
  ℕ, ◌+◌, ◌-◌, ◌%◌, Bool, true, false, not, ◌&&◌, ◌||◌, Option, none, some, List, [], ◌∷◌, ◌++◌, ℤ,
  pos, is_negative, is_success, ltb, leb, ◌==◌, if◌then◌else◌, ◌>>=◌, ◌>>◌, require, update, u32,
}
use openamp_core.Bitmap.{Bitmap}
use openamp_core.Utilities.{Chars, safe_strcpy}
use openamp_core.Rpmsg.Address.{
  rpmsg_success, rpmsg_err_param, rpmsg_err_addr, rpmsg_addr_any, rpmsg_reserved_addresses,
  rpmsg_addr_bmp_size, get_address, release_address, is_address_set, set_address,
}

module _ {W : Type 0} where
  abbrev pub set_ept : Device W → Ptr → Endpoint W → Device W
  set_ept d p e = record d { ept = update d.ept p e }

  -- `metal_mutex_acquire` of a lock that nobody else takes: to take it twice would block.
  abbrev pub mutex_acquire : Device W → Option (Device W)
  mutex_acquire d = require (not d.locked) >> some (record d { locked = true })

  abbrev pub mutex_release : Device W → Device W
  mutex_release d = record d { locked = false }

  -- `rpmsg_ept_incref`
  pub ept_incref : Device W → Ptr → Device W
  ept_incref d p =
      if p == 0 then d else set_ept d p (record (d.ept p) { refcnt = ((d.ept p).refcnt + 1) % u32 })

  -- What `rpmsg_ept_decref` does when the count gets to 0.
  abbrev pub ept_last : Device W → Ptr → ℕ → Option (Ptr → W → W) → Device W
  ept_last d p refcnt (some release_cb) =
      record (set_ept d p (record (d.ept p) { refcnt = refcnt })) { world = release_cb p d.world }
  ept_last d p refcnt none = set_ept d p (record (d.ept p) { refcnt = refcnt; rdev = false })

  -- `rpmsg_ept_decref`
  pub ept_decref : Device W → Ptr → Device W
  ept_decref d p =
      let refcnt = ((d.ept p).refcnt + (u32 - 1)) % u32 in
      if p == 0
      then d
      else if refcnt == 0
      then ept_last d p refcnt (d.ept p).release_cb
      else set_ept d p (record (d.ept p) { refcnt = refcnt })

  -- The parameter checks of `rpmsg_send_offchannel_raw`.
  unfoldable pub cannot_send : Device W → Ptr → (dst : ℕ) → Data → (len : ℤ) → Bool
  cannot_send d p dst payload len =
      (p == 0)
      || not (d.ept p).rdev
      || is_null payload
      || (dst == rpmsg_addr_any)
      || is_negative len

  -- The call of the operation in `rpmsg_send_offchannel_raw`, if the device has it.
  pub call_send :
      Device W
      → Option (SendOffchannelRaw W)
      → (src dst : ℕ) → Data
      → (len : ℤ) → (wait : Bool) → ℤ × Device W
  call_send d none src dst payload len wait = (rpmsg_err_param, d)
  call_send d (some send) src dst payload len wait =
      let (ret, world) = send d.world src dst payload len wait in (ret, record d { world = world })

  -- `rpmsg_send_offchannel_raw`
  unfoldable pub send_raw :
      Device W → Ptr → (src dst : ℕ) → Data → (len : ℤ) → (wait : Bool) → ℤ × Device W
  send_raw d p src dst payload len wait =
      if cannot_send d p dst payload len
      then (rpmsg_err_param, d)
      else call_send d d.ops.send_offchannel_raw src dst payload len wait

  -- `rpmsg_send_ns_message`
  pub send_ns_message : Device W → Ptr → (flags : ℕ) → Option (ℤ × Device W)
  unfolding send_raw
  send_ns_message d p flags = do
    let ept = d.ept p
    (_, name) ← safe_strcpy d.stack 32 ept.name 32
    let msg : NsMsg = record { name = name; addr = ept.addr; flags = flags }
    let (ret, sent) = send_raw d p ept.addr 53 (ns_msg msg) (pos 40) true
    some (if is_negative ret then ret else rpmsg_success, sent)

  -- `rpmsg_get_endpoint` on a list of endpoints. `strncmp` tells whether the names differ.
  pub find_endpoint :
      (differ : Chars → Chars → Bool)
      → Device W
      → Option Chars
      → (addr dest_addr : ℕ) → List Ptr
      → Option Ptr
  find_endpoint differ d name addr dest_addr [] = none
  find_endpoint differ d name addr dest_addr (p ∷ ps) =
      let ept = d.ept p in
      let rest = find_endpoint differ d name addr dest_addr ps in
      let name_match : Bool = elim name [ none ↦ false | some n ↦ not (differ ept.name n) ] in
      if not (addr == rpmsg_addr_any) && (ept.addr == addr)
      then some p
      else if not name_match
      then rest
      else if not (dest_addr == rpmsg_addr_any) && (ept.dest_addr == dest_addr)
      then some p
      else if (addr == rpmsg_addr_any) && (ept.dest_addr == rpmsg_addr_any)
      then some p
      else rest

  -- `rpmsg_get_endpoint`
  pub get_endpoint :
      (differ : Chars → Chars → Bool) → Device W → Option Chars → (addr dest_addr : ℕ) → Option Ptr
  unfolding find_endpoint
  get_endpoint differ d name addr dest_addr = find_endpoint differ d name addr dest_addr d.endpoints

  -- `rpmsg_unregister_endpoint`. To unlink a node that is in no list has no meaning in the model.
  pub unregister_endpoint : Device W → Ptr → Option (Device W)
  unfolding ept_decref
  unregister_endpoint d p = do
    require (d.ept p).rdev
    held ← mutex_acquire d
    bitmap ←
        (if (d.ept p).addr == rpmsg_addr_any
          then some held.bitmap
          else release_address held.bitmap rpmsg_addr_bmp_size (d.ept p).addr)
    require (mem p held.endpoints)
    some (
        mutex_release
          (ept_decref (record held { bitmap = bitmap; endpoints = remove p held.endpoints }) p))

  -- The assignments of `rpmsg_register_endpoint`.
  abbrev pub filled_ept :
      Endpoint W → Chars → (src dest : ℕ) → (cb ns_unbind_cb priv : Ptr) → Endpoint W
  filled_ept ept name src dest cb ns_unbind_cb priv = record ept {
    name = name;
    refcnt = 1;
    addr = src;
    dest_addr = dest;
    cb = cb;
    ns_unbind_cb = ns_unbind_cb;
    priv = priv;
    rdev = true;
  }

  -- `rpmsg_register_endpoint`. To link a node twice has no meaning in the model.
  pub register_endpoint :
      Device W
      → Ptr
      → Option Chars
      → (src dest : ℕ) → (cb ns_unbind_cb priv : Ptr) → Option (Device W)
  register_endpoint d p name src dest cb ns_unbind_cb priv = do
    let ept = d.ept p
    name' ← elim name [
      | some s ↦ (safe_strcpy ept.name 32 s 32 >>= λ copied. some copied.1)
      | none ↦ some (update ept.name 0 0)
    ]
    require (not (mem p d.endpoints))
    some (record d {
      ept = update d.ept p (filled_ept ept name' src dest cb ns_unbind_cb priv);
      endpoints = d.endpoints ++ (p ∷ []);
    })

  -- The choice of the address in `rpmsg_create_ept`: the status, the address and the device.
  pub choose_address : Device W → (src : ℕ) → Option (ℤ × ℕ × Device W)
  choose_address d src =
      if src == rpmsg_addr_any
      then (do
        (addr, bitmap) ← get_address d.bitmap d.bitnext rpmsg_addr_bmp_size
        some (
            if addr == rpmsg_addr_any
            then (rpmsg_err_addr, addr, record d { bitmap = bitmap })
            else (
              rpmsg_success,
              addr,
              record d { bitmap = bitmap; bitnext = (addr + 1) % u32 % rpmsg_addr_bmp_size },
            )))
      else if leb rpmsg_reserved_addresses src
      then (do
        status ← is_address_set d.bitmap rpmsg_addr_bmp_size src
        if is_success status
            then (do
              (_, bitmap) ← set_address d.bitmap rpmsg_addr_bmp_size src
              some (rpmsg_success, src, record d { bitmap = bitmap }))
            else some (if is_negative status then status else rpmsg_err_addr, src, d))
      else some (rpmsg_success, src, d)

  -- The announcement of `rpmsg_create_ept`, and the way back if it fails.
  pub announce : Device W → Ptr → Option (ℤ × Device W)
  announce d p = do
    (status, sent) ←
        (if not ((d.ept p).name 0 == 0) && d.support_ns && ((d.ept p).dest_addr == rpmsg_addr_any)
          then send_ns_message d p ns_create
          else some (rpmsg_success, d))
    if is_success status
        then some (status, sent)
        else (unregister_endpoint sent p >>= λ undone. some (status, undone))

  -- `rpmsg_create_ept` on a device that is not NULL.
  pub create_ept :
      Device W → Ptr → Option Chars → (src dest : ℕ) → (cb unbind_cb : Ptr) → Option (ℤ × Device W)
  create_ept d p name src dest cb unbind_cb =
      if (p == 0) || (cb == 0) then some (rpmsg_err_param, d) else do
        held ← mutex_acquire d
        (status, addr, chosen) ← choose_address held src
        if is_success status
            then (do
              registered ←
                  register_endpoint chosen p name addr dest cb unbind_cb (chosen.ept p).priv
              announce (mutex_release registered) p)
            else some (status, mutex_release chosen)

  -- `rpmsg_destroy_ept`
  pub destroy_ept : Device W → Ptr → Option (Device W)
  destroy_ept d p = if (p == 0) || not (d.ept p).rdev then some d else do
    let ept = d.ept p
    (_, sent) ←
        (if not (ept.name 0 == 0) && d.support_ns && leb rpmsg_reserved_addresses ept.addr
          then send_ns_message d p ns_destroy
          else some (rpmsg_success, d))
    unregister_endpoint sent p

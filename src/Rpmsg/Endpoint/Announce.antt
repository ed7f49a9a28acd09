-- ===== src/Rpmsg/Endpoint/Announce.antt =====
-- What the announcement of an endpoint does to the device, whatever the transport answers.
use openamp_core.Prelude.{
  ℕ, ◌+◌, ◌<◌, ◌≡◌, ◌⊎◌, refl, Bool, true, false, not, ◌&&◌, Option, none, some, ℤ, pos,
  is_negative, is_success, count, ◌==◌, if◌then◌else◌, arith, inl, inr, Bool-cases,
}
use openamp_core.Bitmap.{is_bit_set}
use openamp_core.Utilities.Strcpy.{safe_strcpy-copies}
use openamp_core.Rpmsg.Address.{rpmsg_success, rpmsg_err_param, rpmsg_addr_any}
use openamp_core.Rpmsg.Endpoint.{
  Ptr, Device, Data, SendOffchannelRaw, ns_create, cannot_send, call_send, remove, send_raw,
  send_ns_message, announce,
}
use openamp_core.Rpmsg.Endpoint.Unregister.{IsValid, unregister_endpoint-IsValid}

module _ {W : Type 0} (d : Device W) (p : Ptr) where
  send_raw_lem :
      (src dst : ℕ) (payload : Data) (len : ℤ) (wait : Bool)
      → (ret : ℤ) × (w : W) × (send_raw d p src dst payload len wait
          ≡ (ret, record d { world = w }))
  unfolding send_raw call_send
  send_raw_lem src dst payload len wait = elim (Bool-cases (cannot_send d p dst payload len)) [
    | inl refused ↦ (rpmsg_err_param, d.world, rw refused refl)
    | inr accepted ↦
        (let (ret, w, called) = call d.ops.send_offchannel_raw in (ret, w, rw accepted called))
  ]
    where
      call :
          (op : Option (SendOffchannelRaw W))
          → (ret : ℤ) × (w : W) × (call_send d op src dst payload len wait
              ≡ (ret, record d { world = w }))
      call none = (rpmsg_err_param, d.world, refl)
      call (some send) = let (ret, w) = send d.world src dst payload len wait in (ret, w, refl)

  pub send_ns_message_lem :
      (flags : ℕ)
      → (ret : ℤ) × (w : W) × (send_ns_message d p flags ≡ some (ret, record d { world = w }))
  unfolding send_ns_message
  send_ns_message_lem flags =
      let (n, name, copied) =
        safe_strcpy-copies d.stack (d.ept p).name 32 32 (omega arith) (omega arith) in
      let (ret, w, sent) =
        send_raw_lem (d.ept p).addr 53
          (Data.ns_msg (record { name = name; addr = (d.ept p).addr; flags = flags })) (pos 40)
          true in
      (if is_negative ret then ret else rpmsg_success, w, rw (copied, sent) refl)

  announcement :
      (b : Bool)
      → (ret : ℤ) × (w : W) × ((if b
            then send_ns_message d p ns_create
            else some (rpmsg_success, d))
          ≡ some (ret, record d { world = w }))
  announcement true = send_ns_message_lem ns_create
  announcement false = (rpmsg_success, d.world, refl)

  -- Behind a registration: the endpoint stays if the announcement succeeds or none is due, and is
  -- taken off again if it fails.
  pub announce-IsValid :
      IsValid d
      → 0 < count p d.endpoints
      → (status : ℤ) × (d' : Device W) × (announce d p ≡ some (status, d'))
        × IsValid d'
        × (((is_success status ≡ true) × (w : W) × (d' ≡ record d { world = w }))
            ⊎ ((is_success status ≡ false)
                × (d'.endpoints ≡ remove p d.endpoints)
                × ((c : ℕ) → (d.ept p).addr ≡ 1024 + c → is_bit_set d'.bitmap c ≡ false)))
  unfolding announce
  announce-IsValid v h =
      let due : Bool =
        not ((d.ept p).name 0 == 0) && d.support_ns && ((d.ept p).dest_addr == rpmsg_addr_any) in
      let (status, w, sent) = announcement due in
      let told : Device W = record d { world = w } in
      let told_valid : IsValid told = record {
        unlocked = v.unlocked;
        table = v.table;
        next_in = v.next_in;
      } in
      elim (Bool-cases (is_success status)) [
        | inl good ↦ (status, told, rw (sent, good) refl, told_valid, inl (good, w, refl))
        | inr bad ↦
            (let (undone, runs, valid, gone, _, freed) =
                unregister_endpoint-IsValid told p told_valid h in
              (status, undone, rw (sent, bad, runs) refl, valid, inr (bad, gone, freed)))
      ]

-- ===== src/Transport/NameService.antt =====
-- The name service of rpmsg_virtio.c: what the device does on an announcement of the other side.
use openamp_core.Prelude.{
  ℕ, ◌+◌, ◌*◌, Bool, true, false, not, Option, none, some, ◌==◌, if◌then◌else◌, ◌>>=◌, has_flag,
}
use openamp_core.Utilities.{Chars}
use openamp_core.Virtqueue.State.{Ptr}
use openamp_core.Rpmsg.Address.{rpmsg_addr_any}
use openamp_core.Rpmsg.Endpoint.{NsMsg, set_ept, get_endpoint, ept_incref, ept_decref}
use openamp_core.Transport.State.{Rvdev, Env}
use openamp_core.Transport.Buffers.{acquire, release}

-- A 32-bit number of the packed message, its lowest byte first.
abbrev pub le32 : Chars → ℕ → ℕ
le32 bytes i = bytes i + 256 * (bytes (i + 1) + 256 * (bytes (i + 2) + 256 * bytes (i + 3)))

-- The bytes of a `struct rpmsg_ns_msg`.
pub ns_msg_of : Chars → NsMsg
ns_msg_of bytes = record { name = bytes; addr = le32 bytes 32; flags = le32 bytes 36 }

abbrev is_some {ℓ} : {A : Type ℓ} → Option A → Bool
is_some none = false
is_some (some _) = true

module _ {W V : Type 0} (env : Env W V) (debug : Bool) where
  -- A call of a callback of the device, if it is set.
  abbrev call :
      Option (Rvdev W V → Chars → ℕ → Option (Rvdev W V))
      → Rvdev W V
      → Chars
      → ℕ
      → Option (Rvdev W V)
  call none r name dest = some r
  call (some cb) r name dest = cb r name dest

  -- A service of the other side is gone; `ept` is the endpoint that was bound to it.
  pub service_gone : Rvdev W V → Option Ptr → (name : Chars) → (dest : ℕ) → Option (Rvdev W V)
  service_gone r none name dest = call env.ns_unbind_cb (release env debug r) name dest
  service_gone r (some p) name dest = do
    let ept = r.rdev.ept p
    let ept_to_release = is_some ept.release_cb
    let unbound = set_ept r.rdev p (record ept { dest_addr = rpmsg_addr_any })
    let counted = if ept_to_release then ept_incref unbound p else unbound
    let unlocked = release env debug (record r { rdev = counted })
    told ←
        (if ept.ns_unbind_cb == 0
          then some unlocked
          else env.ept_ns_unbind_cb ept.ns_unbind_cb unlocked p)
    called ← call env.ns_unbind_cb told name dest
    if ept_to_release
        then (acquire env debug called >>= λ held.
            some (release env debug (record held { rdev = ept_decref held.rdev p })))
        else some called

  -- A service of the other side has come; `ept` is an endpoint that waits for it.
  pub service_come : Rvdev W V → Option Ptr → (name : Chars) → (dest : ℕ) → Option (Rvdev W V)
  service_come r none name dest = call env.ns_bind_cb (release env debug r) name dest
  service_come r (some p) name dest = some (
      release env debug
        (record r { rdev = set_ept r.rdev p (record (r.rdev.ept p) { dest_addr = dest }) }))

  -- `rpmsg_virtio_ns_callback` on `len` bytes at `p`; it always answers RPMSG_SUCCESS.
  pub ns_callback : Rvdev W V → (p : Ptr) → (len : ℕ) → Option (Rvdev W V)
  unfolding service_gone service_come ns_msg_of
  ns_callback r p len = if not (len == 40) then some r else do
    let msg = ns_msg_of (r.payload p)
    held ← acquire env debug r
    let ept = get_endpoint env.differ held.rdev (some msg.name) rpmsg_addr_any msg.addr
    if has_flag 1 msg.flags
        then service_gone held ept msg.name msg.addr
        else service_come held ept msg.name msg.addr

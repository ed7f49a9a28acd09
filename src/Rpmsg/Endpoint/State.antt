-- ===== src/Rpmsg/Endpoint/State.antt =====
-- The structures of include/openamp/rpmsg.h and rpmsg/rpmsg_internal.h: endpoints, the device and
-- the operations of its transport. `W` is the state of what the callbacks work on.
use openamp_core.Prelude.{ℕ, Bool, true, false, ◌||◌, Option, List, [], ◌∷◌, ℤ, ◌==◌, if◌then◌else◌}
use openamp_core.Bitmap.{Bitmap}
use openamp_core.Utilities.{Chars}

-- A pointer; 0 is NULL.
abbrev pub Ptr : Type 0
Ptr = ℕ

-- `struct rpmsg_ns_msg`
pub record NsMsg : Type 0 where
  pub name : Chars
  pub addr : ℕ
  pub flags : ℕ

-- `const void *data`: NULL, a name service message, or what the caller has at an address.
pub data Data : Type 0 where
  null : Data
  ns_msg : NsMsg → Data
  at : Ptr → Data

abbrev pub is_null : Data → Bool
is_null null = true
is_null (ns_msg _) = false
is_null (at _) = false

-- `enum rpmsg_ns_flags`
abbrev pub ns_create : ℕ
ns_create = 0

abbrev pub ns_destroy : ℕ
ns_destroy = 1

-- `struct rpmsg_endpoint`, without its node. `rdev` says whether the pointer to the device is set.
pub record Endpoint (W : Type 0) : Type 0 where
  pub name : Chars
  pub rdev : Bool
  pub addr : ℕ
  pub dest_addr : ℕ
  pub refcnt : ℕ
  pub release_cb : Option (Ptr → W → W)
  pub cb : Ptr
  pub ns_unbind_cb : Ptr
  pub priv : Ptr

-- `send_offchannel_raw` of `struct rpmsg_device_ops`.
abbrev pub SendOffchannelRaw : Type 0 → Type 0
SendOffchannelRaw W = W → (src dst : ℕ) → Data → (len : ℤ) → (wait : Bool) → ℤ × W

-- `struct rpmsg_device_ops`; an operation that the transport does not have is `none`.
-- `get_tx_payload_buffer` answers the buffer and what it writes to `*len`.
pub record DeviceOps (W : Type 0) : Type 0 where
  pub send_offchannel_raw : Option (SendOffchannelRaw W)
  pub hold_rx_buffer : Option (W → Ptr → W)
  pub release_rx_buffer : Option (W → Ptr → W)
  pub get_tx_payload_buffer : Option (W → (wait : Bool) → Ptr × ℕ × W)
  pub send_offchannel_nocopy : Option (W → (src dst : ℕ) → Data → (len : ℤ) → ℤ × W)
  pub release_tx_buffer : Option (W → Ptr → ℤ × W)
  pub get_rx_buffer_size : Option (W → ℤ)
  pub get_tx_buffer_size : Option (W → ℤ)

-- `struct rpmsg_device`, with the memory of its endpoints. `stack` is what an automatic array holds
-- before it is written.
pub record Device (W : Type 0) : Type 0 where
  pub world : W
  pub ept : Ptr → Endpoint W
  pub endpoints : List Ptr
  pub bitmap : Bitmap
  pub bitnext : ℕ
  pub locked : Bool
  pub ops : DeviceOps W
  pub support_ns : Bool
  pub stack : Chars

abbrev pub mem : Ptr → List Ptr → Bool
mem p [] = false
mem p (q ∷ qs) = (p == q) || mem p qs

abbrev pub remove : Ptr → List Ptr → List Ptr
remove p [] = []
remove p (q ∷ qs) = if p == q then qs else q ∷ remove p qs

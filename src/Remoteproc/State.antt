-- ===== src/Remoteproc/State.antt =====
-- `struct remoteproc` with its memories, and the operations of a platform.
use openamp_core.Prelude.{ℕ, Bool, true, false, not, Option, some, List, ℤ, negsuc, ◌>>◌, require}
use openamp_core.Bitmap.{Bitmap}
use openamp_core.Utilities.{Chars}
use openamp_core.Virtqueue.State.{Ptr}

-- -RPROC_EINVAL, -RPROC_ENODEV and -RPROC_EAGAIN
abbrev pub einval : ℤ
einval = negsuc 1

abbrev pub enodev : ℤ
enodev = negsuc 2

abbrev pub eagain : ℤ
eagain = negsuc 3

-- `enum remoteproc_state`
pub data ProcState : Type 0 where
  offline : ProcState
  configured : ProcState
  ready : ProcState
  running : ProcState
  suspended : ProcState
  error : ProcState
  stopped : ProcState

-- What the code asks a metal I/O region: the address behind a physical address, 0 for NULL, and
-- whether an address is in the region.
pub record Region : Type 0 where
  pub phys_to_virt : (pa : ℕ) → Ptr
  pub phys_to_offset : (pa : ℕ) → ℕ
  pub has_virt : Ptr → Bool

-- `struct remoteproc_mem`
pub record Mem : Type 0 where
  pub name : Chars
  pub da : ℕ
  pub pa : ℕ
  pub size : ℕ
  pub io : Region

-- What the caller asks a memory for: a name, a physical, a device or a virtual address.
pub record Asked : Type 0 where
  pub name : Option Chars
  pub pa : ℕ
  pub da : ℕ
  pub va : Ptr
  pub size : ℕ

-- A mapping: the virtual address, 0 for NULL, the physical and the device address, and the region
-- if it is set.
pub record Mapping : Type 0 where
  pub va : Ptr
  pub pa : ℕ
  pub da : ℕ
  pub io : Option Region

-- `struct remoteproc_ops`, on a state `X` of the platform; an operation that is NULL is `none`.
pub record Ops (X : Type 0) : Type 0 where
  pub remove : Option (X → X)
  pub mmap : Option (X → (pa da size attribute : ℕ) → Mapping × X)
  pub handle_rsc : Option (X → (offset len : ℕ) → ℤ × X)
  pub config : Option (X → (datum : Ptr) → ℤ × X)
  pub start : Option (X → ℤ × X)
  pub stop : Option (X → ℤ × X)
  pub shutdown : Option (X → ℤ × X)
  pub get_mem : Option (X → Asked → Option Mem × X)

-- `struct remoteproc`, without what only the loader of images uses.
pub record Rproc (X : Type 0) : Type 0 where
  pub locked : Bool
  pub mems : List Mem
  pub bitmap : Bitmap
  pub ops : Ops X
  pub state : ProcState
  pub world : X

module _ {X : Type 0} where
  -- The lock of the remote processor: to take it twice would block.
  abbrev pub acquire : Rproc X → Option (Rproc X)
  acquire r = require (not r.locked) >> some (record r { locked = true })

  abbrev pub release : Rproc X → Rproc X
  release r = record r { locked = false }

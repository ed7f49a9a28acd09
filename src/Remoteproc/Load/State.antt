-- ===== src/Remoteproc/Load/State.antt =====
-- What loading an image by remoteproc.c works on: resource tables as bytes, the memory of the target,
-- and the fields and variables of `remoteproc_load`.
use openamp_core.Prelude.{
  ℕ, ◌+◌, ◌*◌, Bool, true, false, ◌&&◌, Option, none, some, ℤ, leb, ◌==◌, if◌then◌else◌,
}
use openamp_core.Virtqueue.State.{Ptr}
use openamp_core.Remoteproc.State.{ProcState, ready, configured, Region, Mapping, Rproc}
use openamp_core.Remoteproc.Memory.{bad_phys}
use openamp_core.Remoteproc.Resources.{
  Table, Resource, carveout, devmem, trace, vdev, vendor, other,
}
use openamp_core.Remoteproc.Loader.{Buffer, number, Loader, LoaderOps}

-- The resource at an offset of the bytes of a table, by its type.
resource_in : (ℕ → ℕ) → (offset : ℕ) → Resource
resource_in bytes offset =
    let at = λ (i : ℕ). number bytes (offset + i) 4 in
    let rsc_type = at 0 in
    if rsc_type == 0
    then carveout (record { da = at 4; pa = at 8; len = at 12; flags = at 16; reserved = at 20 })
    else if rsc_type == 1
    then devmem
    else if rsc_type == 2
    then trace (record { da = at 4; len = at 8 })
    else if rsc_type == 3
    then vdev (record {
      notifyid = at 8;
      num_of_vrings = number bytes (offset + 25) 1;
      vring_notifyid = λ i. at (28 + 20 * i + 12);
    })
    else if leb 128 rsc_type && leb rsc_type 512
    then vendor rsc_type (at 4)
    else other rsc_type

-- The resource table that some bytes are.
pub table_in : Buffer → Table
unfolding resource_in
table_in b = record {
  ver = number b.bytes 0 4;
  num = number b.bytes 4 4;
  reserved = (number b.bytes 8 4, number b.bytes 12 4);
  offset = λ i. number b.bytes (16 + 4 * i) 4;
  at = resource_in b.bytes;
}

-- What the code does to the memory of the target: `metal_io_block_set` at an offset of a region, and
-- `metal_io_block_read` and `metal_io_block_write` of a resource table at a virtual address.
pub record TargetMemory (X : Type 0) : Type 0 where
  pub block_set : X → Region → (offset value len : ℕ) → X
  pub read_table : X → Region → Ptr → (len : ℕ) → ℤ × Buffer × X
  pub write_table : X → Region → Ptr → Table → (len : ℕ) → ℤ × X

-- `struct remoteproc`, with the fields that loading sets.
pub record Host (I Y X : Type 0) : Type 0 where
  pub rproc : Rproc X
  pub loader : Option (LoaderOps I Y)
  pub rsc_table : Ptr
  pub rsc_len : ℕ
  pub rsc_io : Option Region
  pub bootaddr : ℕ

-- The variables of `remoteproc_load`: the remote processor, what the loader keeps, the piece of the
-- image with its offset and length, the last answer of the loader, and the I/O region.
pub record Session (I Y X : Type 0) : Type 0 where
  pub rproc : Rproc X
  pub loader : Loader I Y
  pub img : Option Buffer
  pub offset : ℕ
  pub len : ℕ
  pub last : ℤ
  pub io : Option Region

-- `state == RPROC_READY || state == RPROC_CONFIGURED`
abbrev pub can_load : ProcState → Bool
can_load ready = true
can_load configured = true
can_load _ = false

-- What `remoteproc_mmap` has written, if it did.
abbrev pub io_after : Option Mapping → Option Region → Option Region
io_after none io = io
io_after (some m) io = elim m.io [ none ↦ io | some region ↦ some region ]

abbrev pub pa_after : Option Mapping → ℕ
pa_after none = bad_phys
pa_after (some m) = m.pa

abbrev pub va_after : Option Mapping → Ptr
va_after none = 0
va_after (some m) = m.va

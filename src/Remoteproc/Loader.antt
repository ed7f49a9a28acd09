-- ===== src/Remoteproc/Loader.antt =====
-- What remoteproc.c and a loader of executable images say to each other:
-- include/openamp/remoteproc_loader.h.
use openamp_core.Prelude.{
  ℕ, zero, suc, ◌+◌, ◌-◌, ◌*◌, ◌%◌, Bool, true, false, Option, some, ℤ, pos, negsuc, ltb, leb, ◌==◌,
  if◌then◌else◌, ◌>>◌, require, u32,
}
use openamp_core.Remoteproc.State.{Region}
use openamp_core.Remoteproc.Memory.{bad_phys}

-- What a pointer points to: memory of `size` bytes. A byte is a number below 256.
pub record Buffer : Type 0 where
  pub bytes : ℕ → ℕ
  pub size : ℕ

-- `memcpy` of bytes at an offset into memory of its own.
unfoldable pub copied : Buffer → (offset size : ℕ) → Option Buffer
copied b offset size =
    require (leb (offset + size) b.size)
    >> some (record { bytes = λ i. b.bytes (offset + i); size = size })

-- The little-endian number of `width` bytes at an offset.
unfoldable pub number : (ℕ → ℕ) → (offset width : ℕ) → ℕ
number bytes offset zero = 0
number bytes offset (suc width) = bytes offset % 256 + 256 * number bytes (offset + 1) width

-- RPROC_LOAD_ANYADDR
abbrev pub any_address : ℕ
any_address = bad_phys

-- RPROC_LOADER_READY_TO_LOAD, RPROC_LOADER_POST_DATA_LOAD and RPROC_LOADER_LOAD_COMPLETE
abbrev pub ready_to_load : ℕ
ready_to_load = 0x10000

abbrev pub post_data_load : ℕ
post_data_load = 0x20000

abbrev pub load_complete : ℕ
load_complete = 0x40000

-- What a loader keeps for its caller: the image information `I`, the allocator `Y`, and the next
-- piece of the image that it asks for.
pub record Loader (I Y : Type 0) : Type 0 where
  pub img_info : Option I
  pub heap : Y
  pub noffset : ℕ
  pub nlen : ℕ

-- What `load_data` writes for its caller, with the loader: the address of the segment, the value of
-- the padding and the size in memory.
pub record Target (I Y : Type 0) : Type 0 where
  pub loader : Loader I Y
  pub da : ℕ
  pub padding : ℕ
  pub nmemsize : ℕ

-- What `locate_rsc_table` writes for its caller.
pub record RscPlace : Type 0 where
  pub da : ℕ
  pub offset : ℕ
  pub size : ℕ

-- `struct loader_ops`
pub record LoaderOps (I Y : Type 0) : Type 0 where
  pub load_header :
      Option Buffer → (offset len : ℕ) → (last : ℤ) → Loader I Y → Option (ℤ × Loader I Y)
  pub load_data :
      Option Buffer → (offset len : ℕ) → (last : ℤ) → Target I Y → Option (ℤ × Target I Y)
  pub locate_rsc_table : Option I → RscPlace → Option (ℤ × RscPlace)
  pub release : Option I → Y → Y
  pub get_entry : Option I → ℕ
  pub get_load_state : Option I → ℤ

-- `struct image_store_ops`, on the state `X` of the platform, without the path. `load_image` brings a part
-- of the image to an address in a region, or to memory of the store.
pub record StoreOps (X : Type 0) : Type 0 where
  pub open_image : X → ℤ × Option Buffer × X
  pub close_image : X → X
  pub load_image : X → (offset size pa : ℕ) → Option Region → ℤ × Option Buffer × X
  pub seeks : Bool

-- `(int)n` of a `size_t`
unfoldable pub int_of : ℕ → ℤ
int_of n = let m = n % u32 in if ltb m 2147483648 then pos m else negsuc (u32 - 1 - m)

-- Whether an `int` is less than another.
unfoldable pub int_less : ℤ → ℤ → Bool
int_less (pos a) (pos b) = ltb a b
int_less (pos a) (negsuc b) = false
int_less (negsuc a) (pos b) = true
int_less (negsuc a) (negsuc b) = ltb b a

unfoldable pub int_equal : ℤ → ℤ → Bool
int_equal (pos a) (pos b) = a == b
int_equal (pos a) (negsuc b) = false
int_equal (negsuc a) (pos b) = false
int_equal (negsuc a) (negsuc b) = a == b

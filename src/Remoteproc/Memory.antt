-- ===== src/Remoteproc/Memory.antt =====
-- The memories of a remote processor: `remoteproc_get_mem` and what remoteproc.c looks up with it.
pub mod Lookup
use openamp_core.Prelude.{
  ℕ, ◌+◌, ◌-◌, ◌%◌, ◌^◌, Bool, true, false, not, ◌&&◌, ◌||◌, Option, none, some, List, [], ◌∷◌,
  ◌++◌, ltb, leb, ◌==◌, if◌then◌else◌,
}
use openamp_core.Utilities.{Chars}
use openamp_core.Virtqueue.State.{Ptr}
use openamp_core.Remoteproc.State.{Region, Mem, Asked, Mapping, Rproc}

-- A `metal_phys_addr_t` has 64 bits; METAL_BAD_PHYS.
abbrev pub u64 : ℕ
u64 = 18446744073709551616

abbrev pub bad_phys : ℕ
bad_phys = 18446744073709551615

-- Whether the `size` bytes from an address on are in a memory at `from`.
unfoldable pub in_range : (from mem_size addr size : ℕ) → Bool
in_range from mem_size addr size =
    let end = (from + mem_size) % u64 in
    leb from addr && leb ((addr + size) % u64) end && ltb addr end

-- `remoteproc_datopa` and `remoteproc_patoda`
abbrev pub da_to_pa : Mem → ℕ → ℕ
da_to_pa mem da = (mem.pa + da + u64 - mem.da) % u64

abbrev pub pa_to_da : Mem → ℕ → ℕ
pa_to_da mem pa = (mem.da + pa + u64 - mem.pa) % u64

-- What the loop of `remoteproc_get_mem` does with the answer of the test.
abbrev pub found_at : Option Bool → Mem → Option Mem × Bool → Option Mem × Bool
found_at none mem rest = (none, false)
found_at (some true) mem rest = (some mem, false)
found_at (some false) mem rest = rest

-- The region of a memory, NULL if there is none.
abbrev pub io_of : Option Mem → Option Region
io_of none = none
io_of (some mem) = some (mem.io)

-- The mapping of a memory that `remoteproc_mmap` has found.
unfoldable pub mapping_of : Mem → (pa da : ℕ) → Mapping
mapping_of mem pa da =
    let pa' = if not (pa == bad_phys) || (da == bad_phys) then pa else da_to_pa mem da in
    record {
      va = mem.io.phys_to_virt pa';
      pa = pa';
      da = if not (pa == bad_phys) then pa_to_da mem pa else da;
      io = some (mem.io);
    }

-- The test of the loop of `remoteproc_get_mem` without a name; `none` if it ends the search.
unfoldable pub address_in : Asked → Mem → Option Bool
address_in asked mem =
    if not (asked.pa == bad_phys)
    then some (in_range mem.pa mem.size asked.pa asked.size)
    else if not (asked.da == bad_phys)
    then some (in_range mem.da mem.size asked.da asked.size)
    else if asked.va == 0
    then none
    else some (mem.io.has_virt asked.va)

module _ (differ : Chars → Chars → Bool) where
  -- The test of the loop of `remoteproc_get_mem`; `none` if it ends the search. `differ` is
  -- `strncmp` up to RPROC_MAX_NAME_LEN.
  unfoldable pub matches : Asked → Mem → Option Bool
  matches asked mem = elim asked.name [
    | some name ↦ some (not (differ name mem.name))
    | none ↦ address_in asked mem
  ]

  -- The loop of `remoteproc_get_mem`: the memory, or whether to go on with the operation `get_mem`.
  unfoldable pub find_mem : Asked → List Mem → Option Mem × Bool
  find_mem asked [] = (none, true)
  find_mem asked (mem ∷ mems) =
      let rest = find_mem asked mems in found_at (matches asked mem) mem rest

  module _ {X : Type 0} where
    -- `remoteproc_get_mem`, for a name that is not too long.
    unfoldable pub get_mem : Rproc X → Asked → Option Mem × Rproc X
    get_mem r asked =
        let (found, ask_platform) = find_mem asked r.mems in
        if not ask_platform then (found, r) else elim r.ops.get_mem [
          | none ↦ (none, r)
          | some op ↦ (let (mem, world) = op r.world asked in (mem, record r { world = world }))
        ]

    -- `remoteproc_add_mem` of a remote processor and a memory that are not NULL.
    pub add_mem : Rproc X → Mem → Rproc X
    add_mem r mem = record r { mems = r.mems ++ (mem ∷ []) }

    -- `remoteproc_get_io_with_name`, `remoteproc_get_io_with_pa` and `remoteproc_get_io_with_va`
    pub get_io_with_name : Rproc X → Option Chars → Option Region × Rproc X
    get_io_with_name r name =
        let (mem, asked) =
          get_mem r (record { name = name; pa = bad_phys; da = bad_phys; va = 0; size = 0 }) in
        (io_of mem, asked)

    pub get_io_with_pa : Rproc X → (pa : ℕ) → Option Region × Rproc X
    get_io_with_pa r pa =
        let (mem, asked) =
          get_mem r (record { name = none; pa = pa; da = bad_phys; va = 0; size = 0 }) in
        (io_of mem, asked)

    pub get_io_with_va : Rproc X → Ptr → Option Region × Rproc X
    get_io_with_va r va =
        let (mem, asked) =
          get_mem r (record { name = none; pa = bad_phys; da = bad_phys; va = va; size = 0 }) in
        (io_of mem, asked)

    -- `remoteproc_get_io_with_da`: the region, with the offset in it.
    pub get_io_with_da : Rproc X → (da : ℕ) → Option (Region × ℕ) × Rproc X
    get_io_with_da r da =
        let (mem, asked) =
          get_mem r (record { name = none; pa = bad_phys; da = da; va = 0; size = 0 }) in
        (
          elim mem [ none ↦ none | some m ↦ some (m.io, m.io.phys_to_offset (da_to_pa m da)) ],
          asked,
        )

    -- The end of `remoteproc_mmap`, with the memory and the remote processor after the lookup.
    unfoldable pub mapped :
        (pa da size attribute : ℕ) → Option Mem × Rproc X → Option Mapping × Rproc X
    mapped pa da size attribute (some m, r) = (some (mapping_of m pa da), r)
    mapped pa da size attribute (none, r) = elim r.ops.mmap [
      | none ↦ (some (record { va = 0; pa = pa; da = da; io = none }), r)
      | some op ↦
          (let (mapping, world) = op r.world pa da size attribute in
            (some mapping, record r { world = world }))
    ]

    -- `remoteproc_mmap`; an address that is not given is `none`, and the mapping has what the code
    -- stores through the pointers that are. Without any address, or for no byte, nothing is stored.
    unfoldable pub mmap :
        Rproc X → (pa da : Option ℕ) → (size attribute : ℕ) → Option Mapping × Rproc X
    mmap r none none size attribute = (none, r)
    mmap r pa da size attribute =
        let lpa : ℕ = elim pa [ none ↦ bad_phys | some a ↦ a ] in
        let lda : ℕ = elim da [ none ↦ bad_phys | some a ↦ a ] in
        if size == 0
        then (none, r)
        else mapped lpa lda size attribute
            (get_mem r (record { name = none; pa = lpa; da = lda; va = 0; size = size }))

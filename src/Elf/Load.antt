-- ===== src/Elf/Load.antt =====
-- The segments of an image, one for each call, and what else is asked of it: `elf_load`,
-- `elf_release`, `elf_get_entry`, `elf_locate_rsc_table`, `elf_get_load_state` and `elf_identify` of
-- elf_loader.c.
pub mod Segments
pub mod Order
pub mod Endless
pub mod Errors
use openamp_core.Prelude.{
  ℕ, zero, suc, ◌+◌, ◌-◌, ◌*◌, ◌/◌, ◌%◌, Bool, true, false, not, Option, none, some, List, [], ◌∷◌,
  ℤ, pos, negsuc, ltb, leb, ◌==◌, if◌then◌else◌, ◌>>=◌, ◌>>◌, require, ◌||◌, ◌&&◌, has_flag,
  is_success,
}
use openamp_core.Remoteproc.State.{einval}
use openamp_core.Remoteproc.Loader.{
  Buffer, Loader, Target, RscPlace, LoaderOps, any_address, ready_to_load, post_data_load,
  load_complete,
}
use openamp_core.Elf.Format.{
  Info, Segment, Section, elf_phnum, elf_get_segment_from_index, elf_get_section_from_name, field,
}
use openamp_core.Elf.Header.{hdrs_complete, elf_load_header}

-- `last_load_state & RPROC_LOADER_MASK`, by the bits of the mask
abbrev pub loader_bits : ℤ → ℕ
loader_bits (pos n) = n / 0x10000 % 0x100
loader_bits (negsuc n) = 0xFF - n / 0x10000 % 0x100

-- `(state & ~RPROC_LOADER_MASK) | value`
abbrev pub with_loader_state : (state value : ℕ) → ℕ
with_loader_state state value = state / 0x1000000 * 0x1000000 + value + state % 0x10000

-- What the loop of `elf_next_load_segment` ends with: whether it found a segment to load, the index
-- behind the last segment that it looked at, and that segment.
pub record Next : Type 0 where
  pub found : Bool
  pub nseg : ℕ
  pub parsed : Option Segment

-- The loop of `elf_next_load_segment`, with `rounds` of fuel.
pub next_load_segment : (rounds : ℕ) → Info → (nseg : ℕ) → Option Segment → Option Next
next_load_segment zero info nseg parsed = none
next_load_segment (suc rounds) info nseg parsed = do
  segment ← elf_get_segment_from_index info nseg
  elim segment [
    | none ↦ some (record { found = false; nseg = nseg; parsed = parsed })
    | some s ↦
        (let rest = next_load_segment rounds info (nseg + 1) (some s) in
          let hit : Next = record { found = true; nseg = nseg + 1; parsed = some s } in
          if s.p_type == 1 then some hit else rest)
  ]

-- `elf_next_load_segment`. No segment has an index of `elf_phnum`, so a round more is enough.
pub elf_next_load_segment : Info → (nseg : ℕ) → Option Next
elf_next_load_segment info nseg = next_load_segment (suc (elf_phnum info.ehdr)) info nseg none

module _ {Y : Type 0} where
  abbrev pub with_info : Target Info Y → Info → Target Info Y
  with_info t info = record t { loader = record t.loader { img_info = some info } }

  -- What `elf_parse_segment` writes for each segment that is looked at, and `elf_load` for the one
  -- that was found.
  abbrev pub place_of : Next → Target Info Y → Target Info Y
  place_of next t = elim next.parsed [
    | none ↦ t
    | some s ↦ record t {
      da = s.p_paddr;
      loader = record t.loader {
        noffset = s.p_offset;
        nlen = if next.found then s.p_filesz else t.loader.nlen;
      };
      nmemsize = if next.found then s.p_memsz else t.nmemsize;
    }
  ]

  -- The branch of `elf_load` for RPROC_LOADER_READY_TO_LOAD.
  pub load_segment : Info → Target Info Y → Option (ℤ × Target Info Y)
  load_segment info t = do
    next ← elf_next_load_segment info (info.load_state % 0x100)
    let last = next.nseg == elf_phnum info.ehdr
    let moved =
        if not last
        then info.load_state
        else with_loader_state info.load_state
            (if next.found then post_data_load else load_complete)
    let state = moved / 0x100 * 0x100 + next.nseg % 0x100
    let placed = place_of next t
    let nothing_left = if last then record placed { da = any_address } else placed
    let done = if next.found then placed else nothing_left
    some (pos state, with_info done (record info { load_state = state }))

module _ {Y : Type 0} (allocate : Y → (size : ℕ) → Bool × Y) where
  -- The branch of `elf_load` for RPROC_LOADER_POST_DATA_LOAD.
  pub load_post :
      Option Buffer
      → (offset len : ℕ) → (last : ℤ) → Info
      → Target Info Y
      → Option (ℤ × Target Info Y)
  load_post img offset len last info t =
      if has_flag hdrs_complete info.load_state
      then (let state = with_loader_state info.load_state load_complete in
          some (
            pos state,
            record t {
              loader = record t.loader {
                img_info = some (record info { load_state = state });
                nlen = 0;
              };
            },
          ))
      else (do
        (ret, l) ← elf_load_header allocate img offset len last t.loader
        elim ret [
          | negsuc n ↦ some (negsuc n, record t { loader = l })
          | pos n ↦ (do
            after ← l.img_info
            let state = with_loader_state after.load_state load_complete
            if has_flag hdrs_complete n
                then some (
                  pos state,
                  record t {
                    loader = record l {
                      img_info = some (record after { load_state = state });
                      nlen = 0;
                    };
                    da = any_address;
                  },
                )
                else some (pos after.load_state, record t { loader = l; da = any_address }))
        ])

  -- What `elf_load` does once the header is there.
  pub load_data :
      Option Buffer → (offset len : ℕ) → (last : ℤ) → Target Info Y → Option (ℤ × Target Info Y)
  load_data img offset len last t = do
    info ← t.loader.img_info
    let padded = record t { padding = 0 }
    if has_flag ready_to_load info.load_state
        then load_segment info padded
        else if has_flag post_data_load info.load_state
        then load_post img offset len last info padded
        else some (pos info.load_state, padded)

  -- `elf_load`
  pub elf_load :
      Option Buffer → (offset len : ℕ) → (last : ℤ) → Target Info Y → Option (ℤ × Target Info Y)
  elf_load img offset len last t =
      if not (loader_bits last == 0) then load_data img offset len last t else (do
        (ret, l) ← elf_load_header allocate img offset len last t.loader
        if loader_bits ret == 0
            then some (ret, record t { loader = l; da = any_address })
            else load_data img offset len ret (record t { loader = l }))

-- `metal_free_memory` of memory that a pointer may point to.
abbrev pub freed : {Y : Type 0} → (free : Y → Y) → Option Buffer → Y → Y
freed free none heap = heap
freed free (some part) heap = free heap

-- `elf_release`
pub elf_release : {Y : Type 0} → (free : Y → Y) → Option Info → Y → Y
elf_release free none heap = heap
elf_release free (some info) heap =
    free (freed free info.shstrtab (freed free info.shdrs (freed free info.phdrs heap)))

-- `elf_get_entry`
pub elf_get_entry : Option Info → ℕ
elf_get_entry none = any_address
elf_get_entry (some info) = field info.ehdr 24 4 24 8

-- `elf_get_load_state`
pub elf_get_load_state : Option Info → ℤ
elf_get_load_state none = einval
elf_get_load_state (some info) = pos info.load_state

-- ".resource_table"
abbrev pub rsc_section : List ℕ
rsc_section =
    46 ∷ 114 ∷ 101 ∷ 115 ∷ 111 ∷ 117 ∷ 114 ∷ 99 ∷ 101 ∷ 95 ∷ 116 ∷ 97 ∷ 98 ∷ 108 ∷ 101 ∷ []

-- -RPROC_ERR_LOADER_STATE
abbrev pub err_loader_state : ℤ
err_loader_state = negsuc 11

-- `elf_locate_rsc_table`
pub elf_locate_rsc_table : Option Info → RscPlace → Option (ℤ × RscPlace)
elf_locate_rsc_table none place = some (einval, place)
elf_locate_rsc_table (some info) place =
    if not (has_flag hdrs_complete info.load_state) then some (err_loader_state, place) else (do
      found ← elf_get_section_from_name info rsc_section
      elim found [
        | none ↦ some (pos 0, record place { size = 0 })
        | some s ↦ some (pos 0, record { da = s.sh_addr; offset = s.sh_offset; size = s.sh_size })
      ])

-- `elf_identify`
pub elf_identify : Option Buffer → (len : ℕ) → Option ℤ
elf_identify none len = some einval
elf_identify (some img) len = if ltb len 4 then some einval else (do
  require (leb 4 img.size)
  let b = λ (i : ℕ). img.bytes i % 256
  if b 0 == 0x7F && b 1 == 0x45 && b 2 == 0x4C && b 3 == 0x46 then some (pos 0) else some einval)

-- `elf_ops`
abbrev pub elf_ops :
    {Y : Type 0} → (allocate : Y → (size : ℕ) → Bool × Y) → (free : Y → Y) → LoaderOps Info Y
elf_ops allocate free = record {
  load_header = elf_load_header allocate;
  load_data = elf_load allocate;
  locate_rsc_table = elf_locate_rsc_table;
  release = elf_release free;
  get_entry = elf_get_entry;
  get_load_state = elf_get_load_state;
}

-- `remoteproc_check_fw_format` of remoteproc.c: the loader for an image, or NULL.
pub check_fw_format :
    {Y : Type 0}
    → (allocate : Y → (size : ℕ) → Bool × Y) → (free : Y → Y) → Option Buffer
    → (len : ℕ) → Option (Option (LoaderOps Info Y))
check_fw_format allocate free img len = if len == 0 then some none else (do
  ret ← elf_identify img len
  some (if is_success ret then some (elf_ops allocate free) else none))

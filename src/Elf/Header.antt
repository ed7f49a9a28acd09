-- ===== src/Elf/Header.antt =====
-- The first part of an image, in the pieces that the caller has of it: `elf_load_header` of
-- elf_loader.c. `Y` is the state of the allocator, `allocate` its answer for a size.
pub mod Pieces
pub mod Progress
use openamp_core.Prelude.{
  ℕ, zero, suc, ◌+◌, ◌-◌, ◌*◌, ◌/◌, ◌%◌, Bool, true, false, not, Option, none, some, ℤ, pos, negsuc,
  ltb, leb, ◌==◌, if◌then◌else◌, ◌>>=◌, ◌>>◌, require, ◌||◌, ◌&&◌, has_flag, is_success,
}
use openamp_core.Remoteproc.State.{einval}
use openamp_core.Remoteproc.Memory.{u64}
use openamp_core.Remoteproc.Loader.{Buffer, Loader, copied, ready_to_load}
use openamp_core.Elf.Format.{
  Info, elf_ehdr_size, elf_is_64, by_class, elf_phoff, elf_phentsize, elf_phnum, elf_shoff,
  elf_shentsize, elf_shnum, elf_shstrndx, elf_get_section_from_index, Section,
}

-- -RPROC_ENOMEM
abbrev pub enomem : ℤ
enomem = negsuc 0

abbrev pub wait_for_phdrs : ℕ
wait_for_phdrs = 0x100

abbrev pub wait_for_shdrs : ℕ
wait_for_shdrs = 0x200

abbrev pub wait_for_shstrtab : ℕ
wait_for_shstrtab = 0x400

abbrev pub hdrs_complete : ℕ
hdrs_complete = 0x800

-- `(state & ~ELF_STATE_MASK) | value`
abbrev pub with_elf_state : (state value : ℕ) → ℕ
with_elf_state state value = state / 0x10000 * 0x10000 + value + state % 0x100

-- Whether a part of the image, with its offset and size, is not in a piece. The sums have 64 bits.
unfoldable pub lacks : (offset len at size : ℕ) → Bool
lacks offset len at size = ltb at offset || ltb ((offset + len) % u64) ((at + size) % u64)

-- The copy of `size` bytes behind the beginning of the piece by `start`.
unfoldable pub fetch : Option Buffer → (start size : ℕ) → Option Buffer
fetch none start size = none
fetch (some img) start size = copied img start size

-- An answer that asks for a part of the image.
abbrev pub asking : {Y : Type 0} → Info → Loader Info Y → (at size : ℕ) → Option (ℤ × Loader Info Y)
asking info l at size =
    some (pos info.load_state, record l { img_info = some info; noffset = at; nlen = size })

module _ {Y : Type 0} (allocate : Y → (size : ℕ) → Bool × Y) where
  -- Memory for a part of the image, with the part copied there; NULL if there is no memory.
  unfoldable pub read_part : Y → Option Buffer → (start size : ℕ) → Option (Option Buffer × Y)
  read_part heap img start size =
      let (ok, after) = allocate heap size in
      if ok
      then (fetch img start size >>= λ table. some (some table, after))
      else some (none, after)

  -- The branch of `elf_load_header` for the section names, and what is behind it.
  pub load_shstrtab :
      Option Buffer
      → (offset len : ℕ) → (last : ℕ) → Info
      → Loader Info Y
      → Option (ℤ × Loader Info Y)
  load_shstrtab img offset len last info l =
      if not (has_flag wait_for_shstrtab info.load_state)
      then some (pos last, record l { img_info = some info })
      else (do
        found ← elf_get_section_from_index info (elf_shstrndx info.ehdr)
        elim found [
          | none ↦ some (einval, record l { img_info = some info })
          | some s ↦
              if lacks offset len s.sh_offset s.sh_size
              then asking info l s.sh_offset s.sh_size
              else (do
                (names, heap) ← read_part l.heap img (s.sh_offset - offset) s.sh_size
                let named = record info { shstrtab = names }
                elim names [
                  | none ↦ some (enomem, record l { img_info = some named; heap = heap })
                  | some table ↦
                      (let state = with_elf_state info.load_state hdrs_complete in
                        some (
                          pos state,
                          record l {
                            img_info = some (record named { load_state = state });
                            heap = heap;
                            nlen = 0;
                          },
                        ))
                ])
        ])

  -- The branch for the section headers, and what is behind it.
  pub load_shdrs :
      Option Buffer
      → (offset len : ℕ) → (last : ℕ) → Info
      → Loader Info Y
      → Option (ℤ × Loader Info Y)
  load_shdrs img offset len last info l =
      let at = elf_shoff info.ehdr in
      let size = elf_shnum info.ehdr * elf_shentsize info.ehdr in
      if not (has_flag wait_for_shdrs info.load_state)
      then load_shstrtab img offset len last info l
      else if elf_shnum info.ehdr == 0
      then (let state = with_elf_state info.load_state hdrs_complete in
          some (
            pos state,
            record l { img_info = some (record info { load_state = state }); nlen = 0 },
          ))
      else if lacks offset len at size
      then asking info l at size
      else (do
        (table, heap) ← read_part l.heap img (at - offset) size
        elim table [
          | none ↦
              some
                (enomem, record l { img_info = some (record info { shdrs = none }); heap = heap })
          | some shdrs ↦
              (let state = with_elf_state info.load_state wait_for_shstrtab in
                load_shstrtab img offset len last
                  (record info { shdrs = some shdrs; load_state = state })
                  (record l { heap = heap }))
        ])

  -- The branch for the program headers, and what is behind it.
  unfoldable pub load_phdrs :
      Option Buffer
      → (offset len : ℕ) → (last : ℕ) → Info
      → Loader Info Y
      → Option (ℤ × Loader Info Y)
  load_phdrs img offset len last info l =
      let at = elf_phoff info.ehdr in
      let size = elf_phnum info.ehdr * elf_phentsize info.ehdr in
      if not (info.load_state == wait_for_phdrs)
      then load_shdrs img offset len last info l
      else if lacks offset len at size
      then asking info l at size
      else (do
        (table, heap) ← read_part l.heap img (at - offset) size
        elim table [
          | none ↦
              some
                (enomem, record l { img_info = some (record info { phdrs = none }); heap = heap })
          | some phdrs ↦
              load_shdrs img offset len last
                (record info { phdrs = some phdrs; load_state = wait_for_shdrs + ready_to_load })
                (record l { heap = heap })
        ])

  -- The image information for the header of an image: the one that the caller has, or new memory
  -- that is cleared; NULL if there is none. To put the header of one class in the information of the
  -- other has no meaning in the model.
  unfoldable pub info_for : Option Info → Y → (img : Buffer) → Option (Option Info × Y)
  info_for (some info) heap img = do
    require (
        (elf_is_64 info.ehdr && elf_is_64 img.bytes)
        || (not (elf_is_64 info.ehdr) && not (elf_is_64 img.bytes)))
    some (some info, heap)
  info_for none heap img =
      let (ok, after) = allocate heap (by_class img.bytes 80 96) in
      some (
        if ok
            then some (record {
              ehdr = λ i. 0;
              load_state = 0;
              phdrs = none;
              shdrs = none;
              shstrtab = none;
            })
            else none,
        after,
      )

  -- What `elf_load_header` does once the information is there: `last_load_state` must be its state.
  unfoldable pub load_tables :
      Option Buffer → (offset len : ℕ) → (last : ℤ) → Loader Info Y → Option (ℤ × Loader Info Y)
  load_tables img offset len (negsuc n) l = elim l.img_info [
    | none ↦ none
    | some info ↦ some (einval, l)
  ]
  load_tables img offset len (pos last) l = elim l.img_info [
    | none ↦ none
    | some info ↦
        if not (last == info.load_state)
        then some (einval, l)
        else load_phdrs img offset len last info l
  ]

  -- The part of `elf_load_header` in ELF_STATE_INIT.
  unfoldable pub load_ehdr :
      Option Buffer → (offset len : ℕ) → Loader Info Y → Option (ℤ × Loader Info Y)
  load_ehdr img offset len l = do
    tmpsize ← elf_ehdr_size img
    if ltb len tmpsize then some (pos 0, record l { noffset = 0; nlen = tmpsize }) else (do
      image ← img
      (info, heap) ← info_for l.img_info l.heap image
      elim info [
        | none ↦ some (enomem, record l { img_info = none; heap = heap })
        | some i ↦ (do
          header ← copied image 0 tmpsize
          load_tables img offset len (pos wait_for_phdrs) (record l {
            img_info = some (record i { ehdr = header.bytes; load_state = wait_for_phdrs });
            heap = heap;
          }))
      ])

  -- `elf_load_header`
  unfoldable pub elf_load_header :
      Option Buffer → (offset len : ℕ) → (last : ℤ) → Loader Info Y → Option (ℤ × Loader Info Y)
  elf_load_header img offset len last l =
      if is_success last then load_ehdr img offset len l else load_tables img offset len last l

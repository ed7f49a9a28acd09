-- ===== src/Elf/Header/Pieces.antt =====
-- `elf_load_header` of elf_loader.c, on pieces of one file: what it asks for, and what it reads.
use mathlib.Core.Path.{fun_ext}
use openamp_core.Prelude.{
  ℕ, ◌+◌, ◌-◌, ◌*◌, ◌<◌, ◌≤◌, ◌≡◌, ◌⊎◌, inl, inr, refl, ap, Bool, true, false, Option, none, some,
  ◌==◌, Bool-cases, if◌then◌else◌, leb, le→leb, arith, ℤ, pos, is_negative,
}
use openamp_core.Remoteproc.Memory.{u64}
use openamp_core.Remoteproc.Loader.{Buffer, Loader, copied}
use openamp_core.Elf.Format.{
  Info, Section, by_class, elf_phoff, elf_phnum, elf_phentsize, elf_shoff, elf_shnum, elf_shentsize,
  elf_shstrndx, elf_parse_section,
}
use openamp_core.Elf.Header.{lacks, fetch, read_part}

-- What the loader may wait for: the header, one of the tables, or the names of the sections.
pub data Stage : Type 0 where
  header : Stage
  phdrs : Stage
  shdrs : Stage
  shstrtab : Stage

abbrev pub rank : Stage → ℕ
rank header = 4
rank phdrs = 3
rank shdrs = 2
rank shstrtab = 1

abbrev pub state_of : Stage → ℕ
state_of header = 0
state_of phdrs = 0x100
state_of shdrs = 0x10200
state_of shstrtab = 0x10400

module _ (file : ℕ → ℕ) where
  -- A part of the file.
  abbrev pub part : (at size : ℕ) → Buffer
  part at size = record { bytes = λ i. file (at + i); size = size }

  abbrev pub phdrs_size : ℕ
  phdrs_size = elf_phnum file * elf_phentsize file

  abbrev pub shdrs_size : ℕ
  shdrs_size = elf_shnum file * elf_shentsize file

  -- The section with the names of the sections.
  abbrev pub names : Section
  names =
      elf_parse_section file (λ i. file (elf_shoff file + i))
        (elf_shstrndx file * by_class file 40 64)

  -- A file whose tables are not at the end of the address space, and whose section headers are not
  -- smaller than the structure for them and include the one of the names, if
  -- there are any.
  pub record IsSane : Type 0 where
    pub phdrs_end : elf_phoff file + phdrs_size < u64
    pub shdrs_end : elf_shoff file + shdrs_size < u64
    pub names_end : names.sh_offset + names.sh_size < u64
    pub whole : by_class file 40 64 ≤ elf_shentsize file
    pub named : (elf_shnum file == 0) ≡ false → elf_shstrndx file < elf_shnum file

  -- Where in the file that is, and how long.
  abbrev pub place_of : Stage → ℕ
  place_of header = 0
  place_of phdrs = elf_phoff file
  place_of shdrs = elf_shoff file
  place_of shstrtab = names.sh_offset

  abbrev pub size_of : Stage → ℕ
  size_of header = by_class file 52 64
  size_of phdrs = phdrs_size
  size_of shdrs = shdrs_size
  size_of shstrtab = names.sh_size

  -- The image information while the loader waits.
  abbrev pub phdrs_info : Info
  phdrs_info = record {
    ehdr = file;
    load_state = 0x100;
    phdrs = none;
    shdrs = none;
    shstrtab = none;
  }

  abbrev pub shdrs_info : Info
  shdrs_info = record {
    ehdr = file;
    load_state = 0x10200;
    phdrs = some (part (elf_phoff file) phdrs_size);
    shdrs = none;
    shstrtab = none;
  }

  abbrev pub names_info : Info
  names_info = record {
    ehdr = file;
    load_state = 0x10400;
    phdrs = some (part (elf_phoff file) phdrs_size);
    shdrs = some (part (elf_shoff file) shdrs_size);
    shstrtab = none;
  }

  abbrev pub info_at : Stage → Option Info
  info_at header = none
  info_at phdrs = some phdrs_info
  info_at shdrs = some shdrs_info
  info_at shstrtab = some names_info

  -- The image information in the end: with the section headers and their names if there are any.
  abbrev pub complete_info : Info
  complete_info = record {
    ehdr = file;
    load_state = 0x10800;
    phdrs = some (part (elf_phoff file) phdrs_size);
    shdrs = if elf_shnum file == 0 then none else some (part (elf_shoff file) shdrs_size);
    shstrtab = if elf_shnum file == 0 then none else some (part names.sh_offset names.sh_size);
  }

  module _ {Y : Type 0} where
    -- The loader waits for a part of the file, and asks for it.
    abbrev pub Waits : Stage → ℤ → Loader Info Y → Type 0
    Waits s ret l =
        (ret ≡ pos (state_of s))
        × (l.img_info ≡ info_at s)
        × (l.noffset ≡ place_of s)
        × (l.nlen ≡ size_of s)

    -- A call fails, or it completes the headers, or it waits for a part of rank `bound` at most.
    abbrev pub Reply : (bound : ℕ) → Option (ℤ × Loader Info Y) → Type 0
    Reply bound r =
        (ret : ℤ) × (l : Loader Info Y) × (r ≡ some (ret, l))
        × ((is_negative ret ≡ true)
            ⊎ ((ret ≡ pos 0x10800) × (l.img_info ≡ some complete_info) × (l.nlen ≡ 0))
            ⊎ ((s : Stage) × (rank s ≤ bound) × Waits s ret l))

  module _ (offset len : ℕ) (inside : offset + len < u64) where
    fetch_lem :
        (at size : ℕ)
        → at + size < u64
        → lacks offset len at size ≡ false
        → fetch (some (part offset len)) (at - offset) size ≡ some (part at size)
    unfolding lacks fetch copied
    fetch_lem at size small h =
        let before : offset ≤ at = ground (arith, h) in
        let enough : at + size ≤ offset + len = ground (arith, h) in
        let fits : leb (at - offset + size) len ≡ true = le→leb _ _ (omega arith) in
        let same : (λ (i : ℕ). file (offset + (at - offset + i))) ≡ (λ i. file (at + i)) =
          fun_ext (λ i. ap file (omega arith)) in
        rw fits (ap (λ (bytes : ℕ → ℕ). some (record { bytes = bytes; size = size })) same)

    pub lacks_not :
        (at size : ℕ) → offset ≤ at → at + size ≤ offset + len → lacks offset len at size ≡ false
    unfolding lacks
    lacks_not at size before enough = ground (arith, inside)

    module _ {Y : Type 0} (allocate : Y → (size : ℕ) → Bool × Y) where
      pub read_cases :
          (heap : Y) (at size : ℕ)
          → at + size < u64
          → lacks offset len at size ≡ false
          → ((after : Y) × (read_part allocate heap (some (part offset len)) (at - offset) size
                ≡ some (none, after)))
            ⊎ ((after : Y) × (read_part allocate heap (some (part offset len)) (at - offset) size
                  ≡ some (some (part at size), after)))
      unfolding read_part
      read_cases heap at size small h = elim (Bool-cases (allocate heap size).0) [
        | inl ok ↦ inr ((allocate heap size).1, rw (ok, fetch_lem at size small h) refl)
        | inr full ↦ inl ((allocate heap size).1, rw full refl)
      ]

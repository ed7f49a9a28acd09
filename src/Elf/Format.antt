-- ===== src/Elf/Format.antt =====
-- The structures of an ELF image as bytes, for both classes, and what elf_loader.c reads of them.
pub mod Tables
use openamp_core.Prelude.{
  ℕ, zero, suc, ◌+◌, ◌-◌, ◌*◌, ◌/◌, ◌%◌, Bool, true, false, Option, none, some, List, [], ◌∷◌, ltb,
  leb, ◌==◌, if◌then◌else◌, ◌>>=◌, ◌>>◌, require, ◌||◌, u32,
}
use openamp_core.Remoteproc.Loader.{Buffer, number}

-- `struct elf32_info` and `struct elf64_info`, with the bytes of the header and the tables that
-- have been read.
pub record Info : Type 0 where
  pub ehdr : ℕ → ℕ
  pub load_state : ℕ
  pub phdrs : Option Buffer
  pub shdrs : Option Buffer
  pub shstrtab : Option Buffer

-- `elf_is_64` of the bytes of a header
unfoldable pub elf_is_64 : (ℕ → ℕ) → Bool
elf_is_64 ehdr = ehdr 4 % 256 == 2

-- The size that a structure has in the class of a header.
abbrev pub by_class : (ℕ → ℕ) → (in_32 in_64 : ℕ) → ℕ
by_class ehdr in_32 in_64 = if elf_is_64 ehdr then in_64 else in_32

-- A field of the header, at its offset and of its width in either class.
abbrev pub field : (ℕ → ℕ) → (at_32 width_32 at_64 width_64 : ℕ) → ℕ
field ehdr at_32 width_32 at_64 width_64 =
    if elf_is_64 ehdr then number ehdr at_64 width_64 else number ehdr at_32 width_32

-- `elf_ehdr_size` of an image
unfoldable pub elf_ehdr_size : Option Buffer → Option ℕ
elf_ehdr_size none = some 64
elf_ehdr_size (some img) = require (ltb 4 img.size) >> some (by_class img.bytes 52 64)

unfoldable pub elf_phoff : (ehdr : ℕ → ℕ) → ℕ
elf_phoff ehdr = field ehdr 28 4 32 8

unfoldable pub elf_phentsize : (ehdr : ℕ → ℕ) → ℕ
elf_phentsize ehdr = field ehdr 42 2 54 2

unfoldable pub elf_phnum : (ehdr : ℕ → ℕ) → ℕ
elf_phnum ehdr = field ehdr 44 2 56 2

unfoldable pub elf_shoff : (ehdr : ℕ → ℕ) → ℕ
elf_shoff ehdr = field ehdr 32 4 40 8

unfoldable pub elf_shentsize : (ehdr : ℕ → ℕ) → ℕ
elf_shentsize ehdr = field ehdr 46 2 58 2

unfoldable pub elf_shnum : (ehdr : ℕ → ℕ) → ℕ
elf_shnum ehdr = field ehdr 48 2 60 2

unfoldable pub elf_shstrndx : (ehdr : ℕ → ℕ) → ℕ
elf_shstrndx ehdr = field ehdr 50 2 62 2

-- The `index`-th structure of a table, of its size in either class: where it begins. The whole of
-- it has to be in the memory of the table.
unfoldable pub entry : (ehdr : ℕ → ℕ) → Buffer → (in_32 in_64 index : ℕ) → Option ℕ
entry ehdr table in_32 in_64 index =
    let start = index * by_class ehdr in_32 in_64 in
    require (leb (start + by_class ehdr in_32 in_64) table.size) >> some start

-- `Elf32_Phdr` and `Elf64_Phdr`, as `elf_parse_segment` reads them.
pub record Segment : Type 0 where
  pub p_type : ℕ
  pub p_offset : ℕ
  pub p_vaddr : ℕ
  pub p_paddr : ℕ
  pub p_filesz : ℕ
  pub p_memsz : ℕ

unfoldable pub elf_parse_segment : (ehdr : ℕ → ℕ) → (table : ℕ → ℕ) → (start : ℕ) → Segment
elf_parse_segment ehdr table start =
    let at = λ (offset : ℕ) (width : ℕ). number table (start + offset) width in
    if elf_is_64 ehdr
    then record {
      p_type = at 0 4;
      p_offset = at 8 8;
      p_vaddr = at 16 8;
      p_paddr = at 24 8;
      p_filesz = at 32 8;
      p_memsz = at 40 8;
    }
    else record {
      p_type = at 0 4;
      p_offset = at 4 4;
      p_vaddr = at 8 4;
      p_paddr = at 12 4;
      p_filesz = at 16 4;
      p_memsz = at 20 4;
    }

-- `elf_get_segment_from_index`, and the segment there: `some none` for NULL.
pub elf_get_segment_from_index : Info → (index : ℕ) → Option (Option Segment)
elf_get_segment_from_index info index = elim info.phdrs [
  | none ↦ some none
  | some phdrs ↦
      if leb (elf_phnum info.ehdr) index
      then some none
      else (entry info.ehdr phdrs 32 56 index >>= λ start.
          some (some (elf_parse_segment info.ehdr phdrs.bytes start)))
]

-- `Elf32_Shdr` and `Elf64_Shdr`, as `elf_parse_section` reads them, with the name.
pub record Section : Type 0 where
  pub sh_name : ℕ
  pub sh_type : ℕ
  pub sh_flags : ℕ
  pub sh_addr : ℕ
  pub sh_offset : ℕ
  pub sh_size : ℕ
  pub sh_link : ℕ
  pub sh_info : ℕ
  pub sh_addralign : ℕ
  pub sh_entsize : ℕ

unfoldable pub elf_parse_section : (ehdr : ℕ → ℕ) → (table : ℕ → ℕ) → (start : ℕ) → Section
elf_parse_section ehdr table start =
    let at = λ (offset : ℕ) (width : ℕ). number table (start + offset) width in
    if elf_is_64 ehdr
    then record {
      sh_name = at 0 4;
      sh_type = at 4 4;
      sh_flags = at 8 8 % u32;
      sh_addr = at 16 8;
      sh_offset = at 24 8;
      sh_size = at 32 8;
      sh_link = at 40 4;
      sh_info = at 44 4;
      sh_addralign = at 48 8 % u32;
      sh_entsize = at 56 8;
    }
    else record {
      sh_name = at 0 4;
      sh_type = at 4 4;
      sh_flags = at 8 4;
      sh_addr = at 12 4;
      sh_offset = at 16 4;
      sh_size = at 20 4;
      sh_link = at 24 4;
      sh_info = at 28 4;
      sh_addralign = at 32 4;
      sh_entsize = at 36 4;
    }

-- The section at an index that is in the table.
abbrev pub section_at : Info → Buffer → (index : ℕ) → Option Section
section_at info shdrs index = entry info.ehdr shdrs 40 64 index >>= λ start.
    some (elf_parse_section info.ehdr shdrs.bytes start)

-- `elf_get_section_from_index`, and the section there: `some none` for NULL.
unfoldable pub elf_get_section_from_index : Info → (index : ℕ) → Option (Option Section)
elf_get_section_from_index info index = elim info.shdrs [
  | none ↦ some none
  | some shdrs ↦
      if leb (elf_shnum info.ehdr) index
      then some none
      else (section_at info shdrs index >>= λ section. some (some section))
]

-- Whether `strcmp` finds a name and the string at an offset of a table alike.
pub same_name : List ℕ → Buffer → (offset : ℕ) → Option Bool
same_name [] table offset = require (ltb offset table.size) >> some (table.bytes offset % 256 == 0)
same_name (c ∷ name) table offset = do
  require (ltb offset table.size)
  let rest = same_name name table (offset + 1)
  if table.bytes offset % 256 == c then rest else some false

-- The loop of `elf_get_section_from_name` at `i`, with `rounds` to go.
pub find_section :
    Info → (name : List ℕ) → (shdrs table : Buffer) → (rounds i : ℕ) → Option (Option Section)
find_section info name shdrs table zero i = some none
find_section info name shdrs table (suc rounds) i = do
  section ← section_at info shdrs i
  same ← same_name name table section.sh_name
  let rest = find_section info name shdrs table rounds (i + 1)
  if same then some (some section) else rest

-- `elf_get_section_from_name`, and the section there: `some none` for NULL.
pub elf_get_section_from_name : Info → (name : List ℕ) → Option (Option Section)
elf_get_section_from_name info name = elim info.shdrs [
  | none ↦ some none
  | some shdrs ↦ elim info.shstrtab [
    | none ↦ some none
    | some table ↦ find_section info name shdrs table (elf_shnum info.ehdr) 0
  ]
]

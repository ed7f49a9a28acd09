-- ===== src/Elf/Format/Tables.antt =====
-- The program headers of an image, once they are read: elf_loader.c.
use openamp_core.Prelude.{ℕ, ◌*◌, ◌<◌, ◌≤◌, ◌≡◌, none, some, arith}
use openamp_core.Remoteproc.Loader.{Buffer}
use openamp_core.Elf.Format.{
  Info, Segment, by_class, entry, elf_phnum, elf_parse_segment, elf_get_segment_from_index,
}

-- The segment at an index of the program headers `b`.
abbrev pub segment_of : (ehdr : ℕ → ℕ) → Buffer → ℕ → Segment
segment_of ehdr b i = elf_parse_segment ehdr b.bytes (i * by_class ehdr 32 56)

-- The program headers have been read into `b`, which has room for all of them.
pub record HasSegments (info : Info) (b : Buffer) : Type 0 where
  pub read : info.phdrs ≡ some b
  pub whole : elf_phnum info.ehdr * by_class info.ehdr 32 56 ≤ b.size

module _ (info : Info) (b : Buffer) (table : HasSegments info b) where
  pub get_segment_lem :
      (i : ℕ)
      → i < elf_phnum info.ehdr
      → elf_get_segment_from_index info i ≡ some (some (segment_of info.ehdr b i))
  unfolding elf_get_segment_from_index entry
  get_segment_lem i h = rw table.read (ground (arith, h, table.whole))

  pub get_segment_end : elf_get_segment_from_index info (elf_phnum info.ehdr) ≡ some none
  unfolding elf_get_segment_from_index
  get_segment_end = rw table.read (ground arith)

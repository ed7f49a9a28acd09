-- ===== src/Elf/Load/Errors.antt =====
-- Errors of `elf_load` and `elf_load_header` of elf_loader.c.
use openamp_core.Prelude.{
  ℕ, ◌+◌, ◌-◌, ◌*◌, ◌<◌, ◌≤◌, ◌≡◌, refl, Bool, true, false, Option, none, some, ◌==◌, leb, ℤ, pos,
  negsuc, has_flag, arith,
}
use openamp_core.Remoteproc.Memory.{u64}
use openamp_core.Remoteproc.Loader.{Buffer, Loader, Target, copied, ready_to_load, post_data_load}
use openamp_core.Elf.Format.{Info, elf_phoff, elf_phnum, elf_phentsize}
use openamp_core.Elf.Header.{
  lacks, fetch, read_part, load_phdrs, load_tables, elf_load_header, wait_for_phdrs,
}
use openamp_core.Elf.Load.{loader_bits, load_data, elf_load}

module _ {Y : Type 0} (allocate : Y → (size : ℕ) → Bool × Y) (img : Option Buffer)
    (offset len : ℕ) where
  -- An error of `elf_load_header` that `elf_load` meets in a state that is not ready is lost, if
  -- there is image information in a state that is not ready: `elf_load` answers that state.
  pub elf_load-loses :
      (last : ℤ) (t : Target Info Y) (l : Loader Info Y) (info : Info) (n : ℕ)
      → loader_bits last ≡ 0
      → elf_load_header allocate img offset len last t.loader ≡ some (negsuc n, l)
      → n < 0x10000
      → l.img_info ≡ some info
      → has_flag ready_to_load info.load_state ≡ false
      → has_flag post_data_load info.load_state ≡ false
      → elf_load allocate img offset len last t
        ≡ some (pos info.load_state, record t { loader = l; padding = 0 })
  unfolding elf_load load_data
  elf_load-loses last t l info n unready failed small here not_ready not_post =
      let kept : (loader_bits (negsuc n) == 0) ≡ false = ground arith in
      rw (unready, failed, kept, here, not_ready, not_post) refl

  -- Program headers whose end is beyond 2^64, where the sum wraps: the test of `elf_load_header`
  -- passes, and it reads out of the bounds of the piece.
  pub elf_load_header-overruns :
      (b : Buffer) (l : Loader Info Y) (info : Info)
      → img ≡ some b
      → l.img_info ≡ some info
      → info.load_state ≡ wait_for_phdrs
      → offset ≤ elf_phoff info.ehdr
      → elf_phoff info.ehdr < u64
      → u64 ≤ elf_phoff info.ehdr + elf_phnum info.ehdr * elf_phentsize info.ehdr
      → elf_phoff info.ehdr + elf_phnum info.ehdr * elf_phentsize info.ehdr ≤ u64 + offset + len
      → offset + len < u64
      → b.size ≤ len
      → (allocate l.heap (elf_phnum info.ehdr * elf_phentsize info.ehdr)).0 ≡ true
      → elf_load_header allocate img offset len (pos wait_for_phdrs) l ≡ none
  unfolding elf_load_header load_tables load_phdrs lacks read_part fetch copied
  elf_load_header-overruns b l info image here state before small beyond wraps inside piece ok =
      let at = elf_phoff info.ehdr in
      let size = elf_phnum info.ehdr * elf_phentsize info.ehdr in
      let held : lacks offset len at size ≡ false = ground arith in
      let outside : leb (at - offset + size) b.size ≡ false = ground arith in
      rw (here, state, held, ok, image, outside) refl
